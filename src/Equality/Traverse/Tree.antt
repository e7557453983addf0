-- ===== src/Equality/Traverse/Tree.antt =====
-- The whole tree of `traverse_and_compute_ANDs` in triangle_counting/equality.h.
use sectric.Common.{ℕ, ◌+◌, ◌*◌, ◌<◌, ◌≡◌, ◌≢◌, Bool, some, arith}
use sectric.Common.Places.{row_unique}
use sectric.Equality.Conj.{conj}
use sectric.Equality.Doubling.{doubling_lem}
use sectric.Equality.Setup.{Config}
use sectric.Equality.Traverse.{
  Packing, Triples, AreTriples, Party, pairs, digit_at, level, levels, traverse_and_compute_ands,
}
use sectric.Equality.Traverse.Level.{opened, level_pair, level_rest, digit_at_lem}

module _ (c : Config) (w : ℕ) (aligned : c.num_cmps ≡ 8 * w) where
  -- The opened digits of comparison `8 * k + u`, by the digit's number.
  abbrev pub column : Party × Party → ℕ → ℕ → ℕ → Bool
  column s k u j = opened s (digit_at c j k + u)

  module _ (p : Packing) (ta tb : Triples) (contract : AreTriples ta tb) where
    -- A digit that is no pair's first is kept.
    column_rest :
        (i count : ℕ) (s : Party × Party) (k u j : ℕ)
        → 0 < i
        → k < w
        → u < 8
        → ((n : ℕ) → n < pairs c i → 2 * i * n ≢ j)
        → column (level p c ta tb i count s) k u j ≡ column s k u j
    column_rest i count s k u j pos hk hu other =
        level_rest p c w aligned i pos ta tb contract count s (digit_at c j k + u)
          (λ n k' u' hn hk' hu' q. other n hn (
            row_unique (2 * i * n) j k' k w hk' hk (
              omega (
                arith,
                q,
                digit_at_lem c w aligned (2 * i * n) k' u',
                digit_at_lem c w aligned j k u,
              ))))

    -- For a configuration with at least one digit and a multiple of eight comparisons, and
    -- triples that satisfy the generator's contract, the traversal ends, and the shares that it
    -- leaves of each comparison's first digit add up to the conjunction of all its digits.
    pub traverse_and_compute_ands_lem :
        (s : Party × Party)
        → 0 < c.num_digits
        → (r : Party × Party) × (traverse_and_compute_ands p c ta tb s ≡ some r)
          × ((k u : ℕ) → k < w → u < 8 → column r k u 0 ≡ conj (column s k u) 0 c.num_digits)
    unfolding traverse_and_compute_ands levels
    traverse_and_compute_ands_lem s some_digit =
        let (r, ends, product) =
          doubling_lem c.num_digits (λ i. pairs c i * c.num_cmps) (level p c ta tb)
            (λ (x : ℕ × ℕ). (x.0 < w) × (x.1 < 8)) (λ s x. column s x.0 x.1)
            (λ i count s x n pos within hn.
              level_pair p c w aligned i pos ta tb contract count s n x.0 x.1 hn within.0 within.1)
            (λ i count s x j pos within hj other.
              column_rest i count s x.0 x.1 j pos within.0 within.1 other)
            s some_digit in
        (r, ends, λ k u hk hu. product (k, u) (hk, hu))
