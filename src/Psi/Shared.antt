-- ===== src/Psi/Shared.antt =====
-- The sum over the bins of triangle_counting/circuit_psi.cpp as a number of shared elements.
use sectric.Common.{
  ℕ, ◌+◌, ◌≤◌, ◌≡◌, ◌≢◌, refl, sym, ap, ap₂, ◌∙◌, inl, inr, Bool, true, false, ◌==◌, ◌||◌,
  if◌then◌else◌, List, [], ◌∷◌, length, map, get_elem?, some, arith, Bool-cases, ==_iff,
}
use sectric.Hashing.Entry.{Entry, dummy_element}
use sectric.Hashing.Agree.{Member}
use sectric.Hashing.Cuckoo.Census.{entry_sum, element_sum}
use sectric.Block.Sse.{Block, zero_block}
use sectric.Equality.Blocks.{block_equal}
use sectric.Psi.{element_value}
use sectric.Psi.Rounds.{weight}
use sectric.Psi.Total.{total, counted}
use sectric.Psi.Parties.{place_blocks}
use sectric.Psi.Cells.{
  block_of, occupied_bins, occupied_blocks, place_blocks-at, weight-at, total-entry_sum,
}

abbrev pub is_member : ℕ → List ℕ → Bool
is_member x [] = false
is_member x (y ∷ ys) = x == y || is_member x ys

-- How many of the first elements are among the second.
abbrev pub shared_count : List ℕ → List ℕ → ℕ
shared_count xs ys = element_sum (λ x. counted (is_member x ys) 1) xs

pub shared_count-le : (xs ys : List ℕ) → shared_count xs ys ≤ length xs
shared_count-le [] ys = omega arith
shared_count-le (x ∷ xs) ys = ground (arith, shared_count-le xs ys)

pub Member-of_is_member : (x : ℕ) (ys : List ℕ) → is_member x ys ≡ true → Member x ys
Member-of_is_member x [] h = cc
Member-of_is_member x (y ∷ ys) h = elim (Bool-cases (x == y)) [
  | inl same ↦ inl ((==_iff x y).0 same)
  | inr apart ↦ inr (Member-of_is_member x ys (rw apart at h))
]

pub is_member_of_Member : (x : ℕ) (ys : List ℕ) → Member x ys → is_member x ys ≡ true
is_member_of_Member x [] m = absurd m
is_member_of_Member x (y ∷ ys) (inl same) = let test = (==_iff x y).1 same in ground arith
is_member_of_Member x (y ∷ ys) (inr m) = ground (arith, is_member_of_Member x ys m)

element_value_one : (vec : List ℕ) (x : ℕ) → Member x vec → element_value vec x ≡ 1
unfolding element_value
element_value_one [] x m = absurd m
element_value_one (y ∷ ys) x (inl same) = let test = (==_iff y x).1 (sym same) in rw test refl
element_value_one (y ∷ ys) x (inr m) = ground (arith, element_value_one ys x m)

element_sum-cong :
    (v w : ℕ → ℕ) (xs : List ℕ)
    → ((x : ℕ) → Member x xs → v x ≡ w x)
    → element_sum v xs ≡ element_sum w xs
element_sum-cong v w [] h = refl
element_sum-cong v w (x ∷ xs) h =
    ap₂ (λ (a b : ℕ). a + b) (h x (inl refl)) (element_sum-cong v w xs (λ y m. h y (inr m)))

-- Each of the receiver's elements has the value 1.
pub element_sum-shared_count :
    (xs ys : List ℕ)
    → element_sum (λ x. counted (is_member x ys) (element_value xs x)) xs ≡ shared_count xs ys
element_sum-shared_count xs ys =
    element_sum-cong _ _ xs (λ x m. ap (counted (is_member x ys)) (element_value_one xs x m))

block_equal_self : (b : Block) → block_equal b b ≡ true
block_equal_self b = ground arith

module _ (vec shared : List ℕ) (es : List Entry) (g : Block → Block) (random : ℕ → Block)
    (found : (b : ℕ) (e : Entry)
      → get_elem? es b ≡ some e
      → e.value ≢ dummy_element
      → is_member e.value shared ≡ true
      → g (block_of e) ≡ random b)
    (apart : (b : ℕ) (e : Entry)
      → get_elem? es b ≡ some e
      → e.value ≢ dummy_element
      → is_member e.value shared ≡ false
      → block_equal (g (block_of e)) (random b) ≡ false) where
  abbrev eq_blocks : ℕ → Block
  eq_blocks = place_blocks (occupied_bins 0 es) (map g (occupied_blocks es)) (λ i. zero_block)

  abbrev pub bin_count : ℕ → ℕ
  bin_count b =
      counted (block_equal (eq_blocks b) (random b))
        (weight vec b (occupied_bins 0 es) (occupied_blocks es))

  bin_count_lem :
      (b : ℕ) (e : Entry)
      → get_elem? es b ≡ some e
      → bin_count b ≡ (
          if e.value == dummy_element
          then 0
          else counted (is_member e.value shared) (element_value vec e.value))
  bin_count_lem b e at_b =
      let first : 0 + b ≡ b = omega arith in
      let weighed = rw first at (weight-at vec es 0 b e at_b) in
      elim (Bool-cases (e.value == dummy_element)) [
        | inl empty ↦
            let none : weight vec b (occupied_bins 0 es) (occupied_blocks es) ≡ 0 =
              weighed ∙ rw empty refl in
            rw (none, empty) (ground arith)
        | inr full ↦
            let real : e.value ≢ dummy_element = λ d. ground arith in
            let placed : eq_blocks b ≡ g (block_of e) =
              rw first at (place_blocks-at g es 0 b e (λ i. zero_block) at_b real) in
            let value : weight vec b (occupied_bins 0 es) (occupied_blocks es)
                ≡ element_value vec e.value =
              weighed ∙ rw full refl in
            rw (placed, value, full)
              (elim (Bool-cases (is_member e.value shared)) [
                | inl in_both ↦
                    rw (found b e at_b real in_both, in_both, block_equal_self (random b)) refl
                | inr alone ↦ rw (apart b e at_b real alone, alone) refl
              ])
      ]

  -- What the bins count is what the entries hold of the shared elements.
  pub bins_total :
      total (length es) bin_count
      ≡ entry_sum (λ x. counted (is_member x shared) (element_value vec x)) es
  bins_total =
      total-entry_sum (λ x. counted (is_member x shared) (element_value vec x)) es bin_count
        bin_count_lem
