-- ===== src/Psi/Rows.antt =====
-- The sender's rows in triangle_counting/circuit_psi.cpp: their keys are distinct, and the values
-- that it stores for them.
use sectric.Common.{
  ℕ, zero, suc, ◌+◌, ◌≤◌, ◌≡◌, refl, sym, ap, ap₂, subst, ◌∙◌, inl, inr, ◌==◌, List, [], ◌∷◌, ◌++◌,
  map, get_or, arith, Bool-cases,
}
use mathlib.Core.List.{map-append}
use native.Mathlib.Nat.{add-zero}
use sectric.Hashing.Agree.{
  Member, Member-append_left, Member-append_right, Member-append_cases, row_of_Member,
  bin_blocks_of_Member,
}
use sectric.Hashing.Cuckoo.Place.{bin}
use sectric.Hashing.Simple.Bins.{row, bin_blocks}
use sectric.Block.Sse.{Block, make_block}
use sectric.Oprf.{xor_block}
use sectric.Psi.Parties.{one_dimension, mask_row, mask_rows}

abbrev pub Distinct : {A : Type 0} → List A → Type 0
Distinct [] = Unit
Distinct (x ∷ xs) = (¬ Member x xs) × Distinct xs

Distinct-append :
    {A : Type 0} (xs ys : List A)
    → Distinct xs
    → Distinct ys
    → ((x : A) → Member x xs → ¬ Member x ys)
    → Distinct (xs ++ ys)
Distinct-append [] ys h k apart = k
Distinct-append (x ∷ xs) ys h k apart = (
  λ m. elim (Member-append_cases x xs ys m) [
    | inl left ↦ h.0 left
    | inr right ↦ apart x (inl refl) right
  ],
  Distinct-append xs ys h.1 k (λ y m. apart y (inr m)),
)

pub one_dimension_of_row :
    (rows : List (List Block)) (b : ℕ) (k : Block)
    → Member k (get_or rows b [])
    → Member k (one_dimension rows)
unfolding one_dimension
one_dimension_of_row [] b k m = m
one_dimension_of_row (r ∷ rows) zero k m = Member-append_left k r (one_dimension rows) m
one_dimension_of_row (r ∷ rows) (suc b) k m =
    Member-append_right k r (one_dimension rows) (one_dimension_of_row rows b k m)

pub row_of_one_dimension :
    (rows : List (List Block)) (k : Block)
    → Member k (one_dimension rows)
    → (b : ℕ) × Member k (get_or rows b [])
unfolding one_dimension
row_of_one_dimension [] k m = (0, m)
row_of_one_dimension (r ∷ rows) k m = elim (Member-append_cases k r (one_dimension rows) m) [
  | inl here ↦ (0, here)
  | inr there ↦ let (b, m') = row_of_one_dimension rows k there in (suc b, m')
]

-- Every block of a row has the row's number, from `i` on.
abbrev pub Named : (Block → ℕ) → ℕ → List (List Block) → Type 0
Named bin_of i rows = (b : ℕ) (k : Block) → Member k (get_or rows b []) → bin_of k ≡ i + b

Named-tail :
    (bin_of : Block → ℕ) (i : ℕ) (r : List Block) (rows : List (List Block))
    → Named bin_of i (r ∷ rows)
    → Named bin_of (suc i) rows
Named-tail bin_of i r rows h b k m = h (suc b) k m ∙ (omega arith)

mask_row-map :
    (v : Block) (f : Block → Block) (r rest : List Block)
    → mask_row v r (map f r ++ rest) ≡ (map (λ k. xor_block v (f k)) r, rest)
unfolding mask_row
mask_row-map v f [] rest = refl
mask_row-map v f (k ∷ r) rest =
    ap (λ (z : List Block × List Block). (xor_block v (f k) ∷ z.0, z.1)) (mask_row-map v f r rest)

module _ (bin_of : Block → ℕ) (random : ℕ → Block) (f : Block → Block) where
  row-cong :
      (i : ℕ) (r : List Block)
      → ((k : Block) → Member k r → bin_of k ≡ i)
      → map (λ k. xor_block (random i) (f k)) r ≡ map (λ k. xor_block (random (bin_of k)) (f k)) r
  row-cong i [] h = refl
  row-cong i (k ∷ r) h =
      ap₂ (λ x (xs : List Block). x ∷ xs)
        (ap (λ n. xor_block (random n) (f k)) (sym (h k (inl refl))))
        (row-cong i r (λ j m. h j (inr m)))

  pub mask_rows-map :
      (rows : List (List Block)) (i : ℕ)
      → Named bin_of i rows
      → mask_rows random i rows (map f (one_dimension rows))
        ≡ map (λ k. xor_block (random (bin_of k)) (f k)) (one_dimension rows)
  unfolding mask_rows one_dimension
  mask_rows-map [] i h = refl
  mask_rows-map (r ∷ rows) i h =
      let whole = one_dimension rows in
      let named : (k : Block) → Member k r → bin_of k ≡ i = λ k m. h 0 k m ∙ add-zero i in
      rw (map-append f r whole, mask_row-map (random i) f r (map f whole))
        (ap₂ (λ (xs ys : List Block). xs ++ ys) (row-cong i r named)
            (mask_rows-map rows (suc i) (Named-tail bin_of i r rows h))
          ∙ sym (map-append (λ k. xor_block (random (bin_of k)) (f k)) r whole))

pub one_dimension-Distinct :
    (bin_of : Block → ℕ) (rows : List (List Block)) (i : ℕ)
    → Named bin_of i rows
    → ((b : ℕ) → Distinct (get_or rows b []))
    → Distinct (one_dimension rows)
unfolding one_dimension
one_dimension-Distinct bin_of [] i h d = tt
one_dimension-Distinct bin_of (r ∷ rows) i h d =
    Distinct-append r (one_dimension rows) (d 0)
      (one_dimension-Distinct bin_of rows (suc i) (Named-tail bin_of i r rows h) (λ b. d (suc b)))
      (λ k m later.
        let (b, m') = row_of_one_dimension rows k later in
        let first = h 0 k m in let second = h (suc b) k m' in absurd (omega (arith, first, second)))

module _ (hash_to_position : ℕ → ℕ → List ℕ) (functions bins : ℕ) where
  row_high :
      (b x left i : ℕ) (k : Block)
      → Member k (row hash_to_position functions bins b x left i)
      → i ≤ k.high
  row_high b x zero i k m = absurd m
  row_high b x (suc left) i k m = elim (Bool-cases (bin hash_to_position functions bins x i == b)) [
    | inr apart ↦ let later = row_high b x left (suc i) k (rw apart at m) in omega (arith, later)
    | inl same ↦ elim (rw same at m) [
      | inl e ↦ omega (arith, ap (λ (z : Block). z.high) e)
      | inr there ↦ let later = row_high b x left (suc i) k there in omega (arith, later)
    ]
  ]

  row-Distinct : (b x left i : ℕ) → Distinct (row hash_to_position functions bins b x left i)
  row-Distinct b x zero i = tt
  row-Distinct b x (suc left) i = elim (Bool-cases (bin hash_to_position functions bins x i == b)) [
    | inr apart ↦ rw apart (row-Distinct b x left (suc i))
    | inl same ↦ rw same (
      λ m.
          let later = row_high b x left (suc i) (make_block i x) m in absurd (omega (arith, later)),
      row-Distinct b x left (suc i),
    )
  ]

  pub bin_blocks-Distinct :
      (b : ℕ) (xs : List ℕ)
      → Distinct xs
      → Distinct (bin_blocks hash_to_position functions bins b xs)
  bin_blocks-Distinct b [] h = tt
  bin_blocks-Distinct b (x ∷ xs) h =
      Distinct-append (row hash_to_position functions bins b x functions 0)
        (bin_blocks hash_to_position functions bins b xs) (row-Distinct b x functions 0)
        (bin_blocks-Distinct b xs h.1)
        (λ k m later.
          let low = (row_of_Member hash_to_position functions bins b x functions 0 k m).0 in
          let other = (bin_blocks_of_Member hash_to_position functions bins b k xs later).0 in
          h.0 (subst (λ n. Member n xs) low other))
