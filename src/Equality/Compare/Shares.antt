-- ===== src/Equality/Compare/Shares.antt =====
-- The shares that `equality_thread` of triangle_counting/equality.h computes.
use sectric.Common.{
  ℕ, ◌+◌, ◌*◌, ◌/◌, ◌%◌, ◌^◌, ◌<◌, ◌≤◌, ◌≡◌, refl, sym, ap, subst, ◌∙◌, Bool, xor, ◌==◌, arith,
  Bool-cases, inl, inr,
}
use native.Mathlib.Nat.{mod-lt, div-add-mod}
use sectric.Common.Run.{ok}
use sectric.Equality.Setup.{Config}
use sectric.Equality.Conj.{conj-cong}
use sectric.Equality.Setup.Digits.{Stored, new-Stored, some_digit, digits_equal, last_length}
use sectric.Equality.Leaf.{Transfer, Transfers}
use sectric.Equality.Leaf.Shares.{compute_leaf_ots_lem}
use sectric.Equality.Traverse.{Packing, AreTriples, Party, digit_at}
use sectric.Equality.Traverse.Level.{opened}
use sectric.Equality.Traverse.Tree.{traverse_and_compute_ands_lem}
use sectric.Equality.Compare.{Supply, start, compare, equality_thread}

xor_comm : (a b : Bool) → xor a b ≡ xor b a
unfolding xor
xor_comm a b = ground arith

==_comm : (a b : ℕ) → (a == b) ≡ (b == a)
==_comm a b = ground arith

-- The oblivious transfers of a radix: `kkot_beta` is set up for its messages.
abbrev pub TransfersFor : ℕ → Transfer → Type 0
TransfersFor beta ot = (c : Config) → c.beta_pow ≡ 2 ^ beta → Transfers c ot

abbrev pub HasTriples : Supply → Type 0
HasTriples supply = AreTriples supply.alice_triples supply.bob_triples

-- Shares of whether the words agree on their low `l` bits.
abbrev pub ShareEquality : ℕ → ℕ → (ℕ → ℕ) → (ℕ → ℕ) → (ℕ → Bool) × (ℕ → Bool) → Type 0
ShareEquality l n x y z = (i : ℕ) → i < n → xor (z.0 i) (z.1 i) ≡ (x i % 2 ^ l == y i % 2 ^ l)

module _ (p : Packing) (ot : Transfer) (l beta n w : ℕ) (aligned : n ≡ 8 * w) (positive : 0 < beta)
    (small : beta ≤ 8) (some_bit : 0 < l) (short : l ≤ 64) (few : l % beta ≤ 4)
    (contract : TransfersFor beta ot) where
  pub compare_lem :
      (supply : Supply) (x y : ℕ → ℕ)
      → HasTriples supply
      → (z : (ℕ → Bool) × (ℕ → Bool)) × (compare p ot supply l beta n x y ≡ ok z)
        × ShareEquality l n x y z
  unfolding compare start
  compare_lem supply x y triples =
      let made = new-Stored l beta n positive small short in
      let c : Config = made.0 in
      let stored : Stored l beta n c = made.2 in
      let leaves =
        compute_leaf_ots_lem l beta n positive small c stored ot (contract c stored.7) x y
          supply.stale supply.random supply.stale_messages supply.stale_leaves
          (subst (λ r. r ≤ 4) (sym (last_length l beta n positive small c stored)) few) in
      let s : Party × Party = (start supply supply.random, start supply leaves.0) in
      let done =
        traverse_and_compute_ands_lem c w (stored.2 ∙ aligned) p supply.alice_triples
          supply.bob_triples triples s (some_digit l beta n positive small c stored some_bit) in
      rw (made.1, leaves.1, done.1)
        (
          (done.0.0.leaf_eq, done.0.1.leaf_eq),
          refl,
          λ i h.
              let k = i / 8 in
              let u = i % 8 in
              let place : (j : ℕ) → digit_at c j k + u ≡ j * c.num_cmps + i =
                λ j. omega (arith, div-add-mod i 8) in
              let first : 0 * c.num_cmps + i ≡ i = omega arith in
              let inside : i < c.num_cmps = subst (λ m. i < m) (sym stored.2) h in
              sym (ap (opened done.0) (place 0 ∙ first))
              ∙ done.2 k u (omega (arith, aligned)) (mod-lt i (omega arith))
              ∙ conj-cong _ _ c.num_digits 0
                  (λ j from under. ap (opened s) (place j) ∙ leaves.2 j i (omega arith) inside)
              ∙ digits_equal l beta n positive small c stored (x i) (y i) some_bit,
        )

  -- With a multiple of eight comparisons, words of at most 64 bits, a radix of at most 8 bits
  -- that divides the length or leaves at most four bits, transfers and triples that satisfy their
  -- contracts, a thread of either parity ends, and the parties' shares of each comparison add up
  -- to whether the two words agree on their low `l` bits.
  pub equality_thread_lem :
      (tid : ℕ) (supply : Supply) (x y : ℕ → ℕ)
      → HasTriples supply
      → (z : (ℕ → Bool) × (ℕ → Bool)) × (equality_thread p ot tid supply n x y l beta ≡ ok z)
        × ShareEquality l n x y z
  unfolding equality_thread
  equality_thread_lem tid supply x y triples = elim (Bool-cases (tid % 2 == 1)) [
    | inl odd ↦
        let run = compare_lem supply y x triples in
        rw (odd, run.1) ((run.0.1, run.0.0), refl, λ i h. xor_comm _ _ ∙ run.2 i h ∙ ==_comm _ _)
    | inr even ↦ let run = compare_lem supply x y triples in rw (even, run.1) (run.0, refl, run.2)
  ]
