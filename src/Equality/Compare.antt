-- ===== src/Equality/Compare.antt =====
-- `equality_thread` of triangle_counting/equality.h: both parties' `Equality` objects, from the
-- constructor to the shares that they write out.
pub mod Shares
use sectric.Common.{ℕ, ◌+◌, ◌*◌, ◌/◌, ◌%◌, ◌^◌, ◌<◌, ◌≡◌, Bool, true, false, ◌==◌, if◌then◌else◌}
use sectric.Common.Run.{Run, ok, ◌>>=◌, fueled}
use sectric.Equality.Setup.{Config, new}
use sectric.Equality.Leaf.{Transfer, Transfers, compute_leaf_ots}
use sectric.Equality.Traverse.{Packing, Triples, AreTriples, Party, traverse_and_compute_ands}

-- What one run of the protocol takes from outside: the sender's random bits, the triples of the
-- two parties, and what new arrays hold.
pub record Supply : Type 0 where
  pub random : ℕ → Bool
  pub alice_triples : Triples
  pub bob_triples : Triples
  pub stale : ℕ → ℕ
  pub stale_messages : ℕ → ℕ → Bool
  pub stale_leaves : ℕ → Bool

-- A party before the traversal.
unfoldable pub start : Supply → (ℕ → Bool) → Party
start supply leaves = record {
  leaf_eq = leaves;
  ei = supply.stale;
  fi = supply.stale;
  e = supply.stale;
  f = supply.stale;
}

module _ (p : Packing) (ot : Transfer) where
  -- The shares of ALICE and of BOB.
  unfoldable pub compare : Supply → ℕ → ℕ → ℕ → (ℕ → ℕ) → (ℕ → ℕ) → Run ((ℕ → Bool) × (ℕ → Bool))
  compare supply l beta num_cmps alice_words bob_words = do
    c ← new l beta num_cmps
    leaves ←
        compute_leaf_ots ot c alice_words bob_words supply.random supply.stale supply.stale_messages
          supply.stale_leaves
    r ← fueled (
        traverse_and_compute_ands p c supply.alice_triples supply.bob_triples
          (start supply leaves.0, start supply leaves.1))
    ok (r.0.leaf_eq, r.1.leaf_eq)

  -- An odd thread runs with the roles of the parties exchanged. The words and the shares are
  -- those of party 1 and of party 2.
  unfoldable pub equality_thread :
      ℕ → Supply → ℕ → (ℕ → ℕ) → (ℕ → ℕ) → ℕ → ℕ → Run ((ℕ → Bool) × (ℕ → Bool))
  equality_thread tid supply lnum_cmps x y l b =
      if tid % 2 == 1
      then compare supply l b lnum_cmps y x >>= (λ z. ok (z.1, z.0))
      else compare supply l b lnum_cmps x y
