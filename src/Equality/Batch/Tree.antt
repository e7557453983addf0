-- ===== src/Equality/Batch/Tree.antt =====
-- The whole tree of `traverse_and_compute_ANDs` in triangle_counting/batch_equality.h.
use sectric.Common.{
  ℕ, zero, suc, ◌+◌, ◌*◌, ◌/◌, ◌%◌, ◌<◌, ◌≡◌, ◌≢◌, refl, ap, ap₂, ◌∙◌, sym, Bool, false, xor, some,
  arith,
}
use native.Mathlib.Nat.{mod-lt, div-add-mod}
use sectric.Common.Fill.{fill1-hit}
use sectric.Common.Loops.{for_each}
use sectric.Common.Run.{ok}
use sectric.Equality.Conj.{conj, conj-cong}
use sectric.Equality.Doubling.{doubling_lem}
use sectric.Equality.Traverse.{Packing, Triples, AreTriples, Party, pairs}
use sectric.Equality.Traverse.Level.{opened}
use sectric.Equality.Batch.{
  BatchConfig, digit_at, leaf_at, level, levels, res_shares, traverse_and_compute_ands,
}
use sectric.Equality.Batch.Places.{place_unique, first_below}
use sectric.Equality.Batch.Level.{level_pair, level_rest}

-- The sum of the first Booleans, modulo 2.
abbrev pub parity : ℕ → (ℕ → Bool) → Bool
parity zero f = false
parity (suc n) f = xor (parity n f) (f n)

pub parity-cong : (n : ℕ) (f g : ℕ → Bool) → ((j : ℕ) → j < n → f j ≡ g j) → parity n f ≡ parity n g
parity-cong zero f g h = refl
parity-cong (suc n) f g h =
    ap₂ xor (parity-cong n f g (λ j l. h j (omega arith))) (h n (omega arith))

xor_regroup : (a b x y : Bool) → xor (xor a x) (xor b y) ≡ xor (xor a b) (xor x y)
unfolding xor
xor_regroup a b x y = ground arith

-- The sums that two parties make of their shares add up to the sum of what is shared.
sums_lem :
    (n : ℕ) (f g h : ℕ → Bool)
    → ((j : ℕ) → j < n → xor (f j) (g j) ≡ h j)
    → xor (for_each n (λ j acc. xor acc (f j)) false) (for_each n (λ j acc. xor acc (g j)) false)
      ≡ parity n h
unfolding for_each xor
sums_lem zero f g h e = refl
sums_lem (suc n) f g h e =
    xor_regroup _ _ (f n) (g n)
    ∙ ap₂ xor (sums_lem n f g h (λ j l. e j (omega arith))) (e n (omega arith))

module _ (c : BatchConfig) (w : ℕ) (aligned : c.base.num_cmps ≡ 8 * w)
    (some_digit : 0 < c.base.num_digits) where
  open c use {base, batch_size}

  -- The opened digits of word `k` of comparison `8 * m + u`, by the digit's number.
  abbrev column : Party × Party → ℕ × ℕ × ℕ → ℕ → Bool
  column s x j = opened s (digit_at c j x.0 x.1 + x.2)

  abbrev InBatch : ℕ × ℕ × ℕ → Type 0
  InBatch x = (x.0 < batch_size) × (x.1 < w) × (x.2 < 8)

  module _ (p : Packing) (ta tb : Triples) (contract : AreTriples ta tb) where
    column_rest :
        (i count : ℕ) (s : Party × Party) (x : ℕ × ℕ × ℕ) (j : ℕ)
        → 0 < i
        → InBatch x
        → j < base.num_digits
        → ((n : ℕ) → n < pairs base i → 2 * i * n ≢ j)
        → column (level c p ta tb i count s) x j ≡ column s x j
    column_rest i count s x j pos within hj other =
        level_rest p c w aligned some_digit i pos ta tb contract count s
          (digit_at c j x.0 x.1 + x.2)
          (λ n k m u hn inside q.
            other n hn
              (place_unique c w aligned (2 * i * n) j k x.0 m x.1 u x.2
                (first_below c w aligned i pos n hn) hj inside.1 within.1 inside.2 within.2 q).1)

    -- The tree leaves the conjunction of all digits of each word in its first digit.
    pub levels_lem :
        (s : Party × Party)
        → (r : Party × Party) × (levels c p ta tb base.num_digits 1 0 s ≡ some r)
          × ((x : ℕ × ℕ × ℕ) → InBatch x → column r x 0 ≡ conj (column s x) 0 base.num_digits)
    unfolding levels
    levels_lem s =
        doubling_lem base.num_digits (λ i. pairs base i * batch_size * base.num_cmps)
          (level c p ta tb) InBatch column
          (λ i count s x n pos within hn.
            level_pair p c w aligned some_digit i pos ta tb contract count s n x.0 x.1 x.2 hn
              within.0 within.1 within.2)
          column_rest s some_digit

    -- For a multiple of eight comparisons, at least one digit and triples that satisfy the
    -- generator's contract.
    pub traverse_and_compute_ands_lem :
        (stale : ℕ → Bool) (s : Party × Party)
        → (z : (ℕ → Bool) × (ℕ → Bool)) × (traverse_and_compute_ands c p ta tb stale s ≡ ok z)
          × ((i : ℕ)
              → i < base.num_cmps
              → xor (z.0 i) (z.1 i)
                ≡ parity batch_size (λ k. conj (λ j. opened s (leaf_at c k j i)) 0 base.num_digits))
    unfolding traverse_and_compute_ands res_shares
    traverse_and_compute_ands_lem stale s =
        let (r, ends, product) = levels_lem s in
        rw ends (
          _,
          refl,
          λ i h.
              let m = i / 8 in
              let u = i % 8 in
              let place : (k j : ℕ) → digit_at c j k m + u ≡ leaf_at c k j i =
                λ k j. omega (arith, div-add-mod i 8) in
              let first : (k : ℕ) → digit_at c 0 k m + u ≡ k * base.num_digits * base.num_cmps + i =
                λ k. omega (arith, div-add-mod i 8) in
              ap₂ xor (fill1-hit base.num_cmps (λ i. i) _ (λ i j h h' e. e) stale i h)
                (fill1-hit base.num_cmps (λ i. i) _ (λ i j h h' e. e) stale i h)
              ∙ sums_lem batch_size _ _ _ (λ k hk.
                sym (ap (opened r) (first k))
                ∙ product (k, m, u) (hk, omega (arith, aligned), mod-lt i (omega arith))
                ∙ conj-cong _ _ base.num_digits 0 (λ j from under. ap (opened s) (place k j))),
        )
