-- ===== src/Psi/Sizes.antt =====
-- The numbers of bins and of elements in triangle_counting/circuit_psi.cpp.
use sectric.Common.{
  ℕ, zero, suc, ◌+◌, ◌-◌, ◌%◌, ◌^◌, ◌≤◌, ◌<◌, ◌≡◌, refl, ap, ◌==◌, List, [], ◌∷◌, length,
  length-append, map, arith, Bool-cases, inl, inr,
}
use sectric.Block.Sse.{Block}
use sectric.Psi.Parties.{element_of, padded_bins, random_elements, receiver_elements}

length-random_elements : (n : ℕ) (rands : ℕ → ℕ) → length (random_elements n rands) ≡ n
unfolding random_elements
length-random_elements zero rands = refl
length-random_elements (suc n) rands = ap suc (length-random_elements n (λ i. rands (suc i)))

length-map : (f : Block → ℕ) (xs : List Block) → length (map f xs) ≡ length xs
length-map f [] = refl
length-map f (x ∷ xs) = ap suc (length-map f xs)

-- The number of bins is a multiple of eight, at least the truncated product and less than eight
-- above it.
pub padded_bins_lem :
    (bin_num : ℕ)
    → (padded_bins bin_num % 8 ≡ 0)
      × (bin_num ≤ padded_bins bin_num)
      × (padded_bins bin_num < bin_num + 8)
unfolding padded_bins
padded_bins_lem bin_num = elim (Bool-cases (bin_num % 8 == 0)) [
  | inl whole ↦ rw whole (ground arith)
  | inr part ↦ rw part (ground arith)
]

-- If the set is not larger than a capacity of 64 bits, the receiver's vector has exactly as many
-- elements as the capacity.
pub length-receiver_elements :
    (capacity : ℕ) (rands : ℕ → ℕ) (set : List Block)
    → length set ≤ capacity
    → capacity < 2 ^ 64
    → length (receiver_elements capacity rands set) ≡ capacity
unfolding receiver_elements
length-receiver_elements capacity rands set fits small =
    let missing : (capacity + 2 ^ 64 - length set) % 2 ^ 64 ≡ capacity - length set =
      omega (arith, fits, small) in
    omega (
      arith,
      fits,
      missing,
      length-append (map element_of set)
          (random_elements ((capacity + 2 ^ 64 - length set) % 2 ^ 64) rands),
      length-map element_of set,
      length-random_elements ((capacity + 2 ^ 64 - length set) % 2 ^ 64) rands,
    )
