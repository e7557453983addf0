-- ===== src/Tests/Store.antt =====
-- A key-value store for the tests of triangle_counting/circuit_psi.cpp.
use sectric.Common.{
  ℕ, zero, suc, ◌%◌, ◌^◌, ◌≡◌, ap₂, subst, true, false, if◌then◌else◌, inl, inr, List, [], ◌∷◌,
  length, map, get_or, Bool-cases, arith,
}
use sectric.Block.Sse.{Block, IsBlock, make_block, zero_block}
use sectric.Hashing.Agree.{Member}
use sectric.Equality.Blocks.{block_equal}
use sectric.Psi.Contracts.{IsStore}

-- A store that lists its keys and values and is searched.
abbrev pub interleave : List Block → List Block → List Block
interleave [] values = []
interleave (k ∷ keys) [] = []
interleave (k ∷ keys) (v ∷ values) = k ∷ v ∷ interleave keys values

abbrev pub encode : List Block → List Block → ℕ → Block
encode keys values n = get_or (make_block 0 (length keys) ∷ interleave keys values) n zero_block

abbrev pub search_from : ℕ → (ℕ → Block) → Block → Block
search_from zero table k = zero_block
search_from (suc n) table k =
    let later = search_from n (λ i. table (suc (suc i))) k in
    if block_equal (table 0) k
    then make_block ((table 1).high % 2 ^ 64) ((table 1).low % 2 ^ 64)
    else later

abbrev pub lookup : (ℕ → Block) → Block → Block
lookup table k = search_from (table 0).low (λ i. table (suc i)) k

pub block_equal_to : (a b : Block) → block_equal a b ≡ true → a ≡ b
block_equal_to a b h = ap₂ make_block (ground arith) (ground arith)

within : (v : Block) → IsBlock v → make_block (v.high % 2 ^ 64) (v.low % 2 ^ 64) ≡ v
within v h = ap₂ make_block (omega (arith, h.0)) (omega (arith, h.1))

search_from-finds :
    (keys : List Block) (f : Block → Block) (k : Block)
    → Member k keys
    → IsBlock (f k)
    → search_from (length keys) (λ i. get_or (interleave keys (map f keys)) i zero_block) k ≡ f k
search_from-finds [] f k m h = absurd m
search_from-finds (x ∷ keys) f k m h = elim (Bool-cases (block_equal x k)) [
  | inl same ↦ let e = block_equal_to x k same in rw same (rw e (within (f k) h))
  | inr apart ↦ elim m [
    | inl e ↦ absurd (
        let test : block_equal x x ≡ true = ground arith in
        let other : block_equal x x ≡ false = subst (λ y. block_equal x y ≡ false) e apart in
        ground arith)
    | inr later ↦ rw apart (search_from-finds keys f k later h)
  ]
]

search_from-IsBlock : (n : ℕ) (t : ℕ → Block) (k : Block) → IsBlock (search_from n t k)
search_from-IsBlock zero t k = (omega arith, omega arith)
search_from-IsBlock (suc n) t k = elim (Bool-cases (block_equal (t 0) k)) [
  | inl same ↦ rw same (omega arith, omega arith)
  | inr apart ↦ rw apart (search_from-IsBlock n (λ i. t (suc (suc i))) k)
]

pub list-IsStore : IsStore encode lookup
list-IsStore = record {
  looked_up = λ keys f k d m h. search_from-finds keys f k m h;
  lookup-IsBlock = λ t k. search_from-IsBlock (t 0).low (λ i. t (suc i)) k;
}
