-- ===== src/Equality/Batch/Perform.antt =====
-- `perform_batch_equality` of triangle_counting/batch_equality.h, run by both parties. Its two
-- threads, the transfers and the generation of the triples, share no state.
use sectric.Common.{ℕ, Bool}
use sectric.Common.Run.{Run, ◌>>=◌}
use sectric.Equality.Traverse.{Packing, Triples, Party}
use sectric.Equality.Batch.{BatchConfig, Transfer, compute_leaf_ots, traverse_and_compute_ands}

-- What a run takes from outside: ALICE's random bits, the triples of the two parties, and what new
-- arrays hold.
pub record BatchSupply : Type 0 where
  pub random : ℕ → Bool
  pub alice_triples : Triples
  pub bob_triples : Triples
  pub stale : ℕ → ℕ
  pub stale_messages : ℕ → ℕ → ℕ
  pub stale_leaves : ℕ → ℕ
  pub stale_shares : ℕ → Bool

-- A party before the traversal.
unfoldable pub start : BatchSupply → (ℕ → Bool) → Party
start supply leaves = record {
  leaf_eq = leaves;
  ei = supply.stale;
  fi = supply.stale;
  e = supply.stale;
  f = supply.stale;
}

-- The shares of ALICE, who has the batches, and of BOB.
unfoldable pub perform_batch_equality :
    BatchConfig
    → Packing
    → Transfer
    → BatchSupply
    → (ℕ → ℕ)
    → (ℕ → ℕ)
    → Run ((ℕ → Bool) × (ℕ → Bool))
perform_batch_equality c p ot supply alice_words bob_words = do
  leaves ←
      compute_leaf_ots c ot alice_words bob_words supply.random supply.stale supply.stale_messages
        supply.stale_leaves
  traverse_and_compute_ands c p supply.alice_triples supply.bob_triples supply.stale_shares
      (start supply leaves.0, start supply leaves.1)
