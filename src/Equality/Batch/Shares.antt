-- ===== src/Equality/Batch/Shares.antt =====
-- The shares that `perform_batch_equality` of triangle_counting/batch_equality.h computes.
use sectric.Common.{
  ℕ, zero, suc, ◌+◌, ◌*◌, ◌%◌, ◌^◌, ◌<◌, ◌≤◌, ◌≡◌, ◌≢◌, refl, sym, subst, ◌∙◌, inl, inr, Bool, true,
  false, xor, ◌||◌, ◌==◌, arith, Bool-cases,
}
use native.Mathlib.Decide.{ℕ_discrete}
use sectric.Common.Run.{Run, ◌>>=◌, Returns}
use sectric.Equality.Conj.{conj-cong}
use sectric.Equality.Setup.{Config}
use sectric.Equality.Setup.Digits.{Stored, new-Stored, some_digit, digits_equal, last_length}
use sectric.Equality.Traverse.{Packing, AreTriples, Party}
use sectric.Equality.Batch.{BatchConfig, Transfer, Transfers, new}
use sectric.Equality.Batch.Leaf.{compute_leaf_ots-Shared}
use sectric.Equality.Batch.Tree.{parity, parity-cong, traverse_and_compute_ands_lem}
use sectric.Equality.Batch.Perform.{BatchSupply, start, perform_batch_equality}

-- Whether one of the first Booleans is true.
abbrev pub any : ℕ → (ℕ → Bool) → Bool
any zero f = false
any (suc n) f = any n f || f n

pub any-true : (n : ℕ) (f : ℕ → Bool) (m : ℕ) → m < n → f m ≡ true → any n f ≡ true
any-true zero f m h e = elim h [ ]
any-true (suc n) f m h e = elim (ℕ_discrete m n) [
  | yes same ↦ let here : f n ≡ true = subst (λ k. f k ≡ true) same e in ground (arith, here)
  | no other ↦ ground (arith, any-true n f m (omega (arith, other, h)) e)
]

pub any-false : (n : ℕ) (f : ℕ → Bool) → ((m : ℕ) → m < n → f m ≡ false) → any n f ≡ false
any-false zero f h = refl
any-false (suc n) f h = ground (arith, any-false n f (λ m l. h m (omega arith)), h n (omega arith))

-- If at most one is true, the sum modulo 2 tells whether one is.
pub parity-eq-any :
    (n : ℕ) (f : ℕ → Bool)
    → ((m m' : ℕ) → m < m' → m' < n → f m' ≡ true → f m ≡ false)
    → parity n f ≡ any n f
unfolding xor
parity-eq-any zero f once = refl
parity-eq-any (suc n) f once =
    let ih = parity-eq-any n f (λ m m' l l'. once m m' l (omega arith)) in
    elim (Bool-cases (f n)) [
      | inl here ↦
          let none = any-false n f (λ m l. once m n l (omega arith) here) in
          ground (arith, ih, none, here)
      | inr absent ↦ ground (arith, ih, absent)
    ]

-- The transfers of a radix: `kkot_beta` is set up for its messages.
abbrev pub TransfersFor : ℕ → Transfer → Type 0
TransfersFor beta ot = (c : Config) → c.beta_pow ≡ 2 ^ beta → Transfers c ot

abbrev pub HasTriples : BatchSupply → Type 0
HasTriples supply = AreTriples supply.alice_triples supply.bob_triples

-- Whether word `m` of batch `i` and word `i` agree on their low `l` bits.
abbrev pub matches : ℕ → ℕ → (ℕ → ℕ) → (ℕ → ℕ) → ℕ → ℕ → Bool
matches l batch_size x y i m = x (i * batch_size + m) % 2 ^ l == y i % 2 ^ l

module _ (p : Packing) (ot : Transfer) (l beta batch_size n w : ℕ) (aligned : n ≡ 8 * w)
    (positive : 0 < beta) (small : beta ≤ 8) (some_bit : 0 < l) (short : l ≤ 64)
    (few : l % beta ≤ 4) (few_words : batch_size ≤ 3) (contract : TransfersFor beta ot) where
  abbrev run : BatchSupply → (ℕ → ℕ) → (ℕ → ℕ) → Run ((ℕ → Bool) × (ℕ → Bool))
  run supply x y = do c ← new l beta batch_size n; perform_batch_equality c p ot supply x y

  pub perform_batch_equality_lem :
      (supply : BatchSupply) (x y : ℕ → ℕ)
      → HasTriples supply
      → Returns (run supply x y) (λ z.
        (i : ℕ) → i < n → xor (z.0 i) (z.1 i) ≡ parity batch_size (matches l batch_size x y i))
  unfolding perform_batch_equality new start
  perform_batch_equality_lem supply x y triples =
      let made = new-Stored l beta n positive small short in
      let stored : Stored l beta n made.0 = made.2 in
      let c : BatchConfig = record { base = made.0; batch_size = batch_size } in
      let leaves =
        compute_leaf_ots-Shared l beta n positive small c stored few_words ot
          (contract made.0 stored.7) x y supply.stale supply.random supply.stale_messages
          supply.stale_leaves
          (subst (λ r. r ≤ 4) (sym (last_length l beta n positive small made.0 stored)) few) in
      let s : Party × Party = (start supply supply.random, start supply leaves.0) in
      let done =
        traverse_and_compute_ands_lem c w (stored.2 ∙ aligned)
          (some_digit l beta n positive small made.0 stored some_bit) p supply.alice_triples
          supply.bob_triples triples supply.stale_shares s in
      rw (made.1, leaves.1, done.1)
        (
          done.0,
          refl,
          λ i h.
              let inside : i < made.0.num_cmps = subst (λ m. i < m) (sym stored.2) h in
              done.2 i inside
              ∙ parity-cong batch_size _ _ (λ k hk.
                conj-cong _ _ made.0.num_digits 0
                  (λ j from under. leaves.2 k j i hk (omega arith) inside)
                ∙ digits_equal l beta n positive small made.0 stored (x (i * batch_size + k)) (y i)
                    some_bit),
        )

  -- For a multiple of eight comparisons, words of at most 64 bits, a radix of at most 8 bits that
  -- divides the length or leaves at most four bits, at most three words in a batch, transfers and
  -- triples that satisfy their contracts, and batches whose words differ on their low `l` bits,
  -- both parties of `perform_batch_equality` end, and their shares of each comparison add up to
  -- whether one of ALICE's words of the batch agrees with BOB's word on the low `l` bits.
  pub perform_batch_equality-any :
      (supply : BatchSupply) (x y : ℕ → ℕ)
      → HasTriples supply
      → ((i m m' : ℕ)
          → i < n
          → m < m'
          → m' < batch_size
          → x (i * batch_size + m) % 2 ^ l ≢ x (i * batch_size + m') % 2 ^ l)
      → Returns
          (run supply x y)
          (λ z. (i : ℕ) → i < n → xor (z.0 i) (z.1 i) ≡ any batch_size (matches l batch_size x y i))
  perform_batch_equality-any supply x y triples distinct =
      let (z, ends, shares) = perform_batch_equality_lem supply x y triples in
      (
        z,
        ends,
        λ i h.
            shares i h
            ∙ parity-eq-any batch_size (matches l batch_size x y i)
                (λ m m' before inside hit. ground (arith, distinct i m m' h before inside, hit)),
      )
