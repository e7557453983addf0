-- ===== src/Hashing/Agree.antt =====
-- How the receiver's table of triangle_counting/cuckoo_hashing.cpp and the sender's of
-- triangle_counting/simple_hashing.cpp meet: both use the same hash functions.
use sectric.Common.{
  ℕ, zero, suc, ◌+◌, ◌<◌, ◌≤◌, ◌≡◌, ◌≢◌, ◌↔◌, ◌⊎◌, inl, inr, sym, subst, ◌∙◌, ap, true, ◌==◌, List,
  [], ◌∷◌, ◌++◌, length, arith, get_or, get_elem?, some, Bool-cases, ==_iff,
}
use native.Mathlib.Decide.{ℕ_discrete}
use sectric.Common.Run.{ok}
use sectric.Hashing.Entry.{Entry, dummy_element}
use sectric.Hashing.Cuckoo
use sectric.Hashing.Cuckoo.{CuckooTable}
use sectric.Hashing.Cuckoo.Place.{bin}
use sectric.Hashing.Cuckoo.Mapped.{IsAllocated, run-IsMapped}
use sectric.Hashing.Cuckoo.Find.{entry_at_home}
use sectric.Hashing.Simple.{SimpleTable, as_raw_2d_vector_no_id}
use sectric.Hashing.Simple.Bins.{row, bin_blocks, as_raw_2d_vector_no_id_lem}
use sectric.Block.Sse.{Block, make_block}

abbrev pub Member : {A : Type 0} → A → List A → Type 0
Member x [] = ⊥
Member x (y ∷ ys) = (x ≡ y) ⊎ Member x ys

pub Member-append_left : {A : Type 0} (x : A) (xs ys : List A) → Member x xs → Member x (xs ++ ys)
Member-append_left x [] ys h = absurd h
Member-append_left x (y ∷ xs) ys (inl e) = inl e
Member-append_left x (y ∷ xs) ys (inr m) = inr (Member-append_left x xs ys m)

pub Member-append_right : {A : Type 0} (x : A) (xs ys : List A) → Member x ys → Member x (xs ++ ys)
Member-append_right x [] ys h = h
Member-append_right x (y ∷ xs) ys h = inr (Member-append_right x xs ys h)

pub Member-append_cases :
    {A : Type 0} (x : A) (xs ys : List A) → Member x (xs ++ ys) → Member x xs ⊎ Member x ys
Member-append_cases x [] ys h = inr h
Member-append_cases x (y ∷ xs) ys (inl e) = inl (inl e)
Member-append_cases x (y ∷ xs) ys (inr m) = elim (Member-append_cases x xs ys m) [
  | inl l ↦ inl (inr l)
  | inr r ↦ inr r
]

module _ (hash_to_position : ℕ → ℕ → List ℕ) (functions bins : ℕ) where
  -- The head of a row, if the function names the bin.
  first_in_row :
      (b x left i n : ℕ)
      → i ≡ n
      → bin hash_to_position functions bins x n ≡ b
      → Member (make_block n x) (row hash_to_position functions bins b x (suc left) i)
  first_in_row b x left i n same e =
      let test : (bin hash_to_position functions bins x i == b) ≡ true =
        (==_iff _ b).1 (ap (bin hash_to_position functions bins x) same ∙ e) in
      rw test (inl (ap (λ k. make_block k x) (sym same)))

  -- The block of function `n` and element `x`, if the function is in reach and names bin `b`.
  row-Member :
      (b x left i n : ℕ)
      → i ≤ n
      → n < i + left
      → bin hash_to_position functions bins x n ≡ b
      → Member (make_block n x) (row hash_to_position functions bins b x left i)
  row-Member b x zero i n l h e = absurd (omega arith)
  row-Member b x (suc left) i n l h e = elim (ℕ_discrete i n) [
    | yes same ↦ first_in_row b x left i n same e
    | no apart ↦
        Member-append_right _ _ _ (row-Member b x left (suc i) n (omega arith) (omega arith) e)
  ]

  -- What a row holds.
  pub row_of_Member :
      (b x left i : ℕ) (y : Block)
      → Member y (row hash_to_position functions bins b x left i)
      → (y.low ≡ x) × (bin hash_to_position functions bins x y.high ≡ b)
  row_of_Member b x zero i y h = absurd h
  row_of_Member b x (suc left) i y h =
      let test = bin hash_to_position functions bins x i == b in
      elim (Bool-cases test) [
        | inr apart ↦ row_of_Member b x left (suc i) y (rw apart at h)
        | inl same ↦ elim (rw same at h) [
          | inl e ↦ (
            ap (λ (z : Block). z.low) e,
            ap (λ (z : Block). bin hash_to_position functions bins x z.high) e
                ∙ (==_iff _ b).0 same,
          )
          | inr later ↦ row_of_Member b x left (suc i) y later
        ]
      ]

  bin_blocks-Member :
      (b x f : ℕ) (xs : List ℕ)
      → Member x xs
      → f < functions
      → bin hash_to_position functions bins x f ≡ b
      → Member (make_block f x) (bin_blocks hash_to_position functions bins b xs)
  bin_blocks-Member b x f [] m h e = absurd m
  bin_blocks-Member b x f (y ∷ xs) (inl same) h e = Member-append_left _ _ _ (
      subst (λ z. Member (make_block f x) (row hash_to_position functions bins b z functions 0))
        same (row-Member b x functions 0 f (omega arith) (omega arith) e))
  bin_blocks-Member b x f (y ∷ xs) (inr m) h e =
      Member-append_right _ (row hash_to_position functions bins b y functions 0) _
        (bin_blocks-Member b x f xs m h e)

  pub bin_blocks_of_Member :
      (b : ℕ) (y : Block) (xs : List ℕ)
      → Member y (bin_blocks hash_to_position functions bins b xs)
      → Member y.low xs × (bin hash_to_position functions bins y.low y.high ≡ b)
  bin_blocks_of_Member b y [] m = absurd m
  bin_blocks_of_Member b y (x ∷ xs) m =
      elim (Member-append_cases y (row hash_to_position functions bins b x functions 0)
        (bin_blocks hash_to_position functions bins b xs) m) [
          | inl here ↦
              let (low, named) = row_of_Member b x functions 0 y here in
              (inl low, ap (λ z. bin hash_to_position functions bins z y.high) low ∙ named)
          | inr there ↦ let (m', named) = bin_blocks_of_Member b y xs there in (inr m', named)
        ]

  -- What bin `b` of the sender's table holds: the blocks of its elements under functions that
  -- name the bin, and no others.
  pub bin_blocks_iff :
      (b f x : ℕ) (xs : List ℕ)
      → f < functions
      → bin hash_to_position functions bins x f ≡ b
      → Member (make_block f x) (bin_blocks hash_to_position functions bins b xs) ↔ Member x xs
  bin_blocks_iff b f x xs h e =
      (λ m. (bin_blocks_of_Member b (make_block f x) xs m).0, λ m. bin_blocks-Member b x f xs m h e)

  module _ (lengths : (v : ℕ) → length (hash_to_position functions v) ≡ functions)
      (some_bin : 0 < bins) (some_function : 0 < functions) where
    -- The receiver's cuckoo table, mapped from an allocated one, and the sender's rows from
    -- `AsRaw2DVectorNoID`, with the same hash functions and bins, agree: an element that the
    -- receiver keeps in a bin is one of the sender's exactly when its block, the function's
    -- number above the element, stands in the sender's row of that bin.
    pub tables_agree :
        (unset : ℕ) (t r : CuckooTable) (s : SimpleTable) (raw : List (List Block) × ℕ)
        → IsAllocated hash_to_position functions bins lengths some_bin some_function unset t
        → Cuckoo.map_elements_to_table hash_to_position t ≡ ok r
        → s.num_bins ≡ bins
        → s.num_of_hash_functions ≡ functions
        → as_raw_2d_vector_no_id hash_to_position s ≡ ok raw
        → (b : ℕ) (e : Entry) → get_elem? r.hash_table b ≡ some e
        → e.value ≢ dummy_element
        → Member (make_block e.current_function_id e.value) (get_or raw.0 b [])
          ↔ Member e.value s.elements
    tables_agree unset t r s raw h run hb hf rows b e at_b real =
        let m =
          run-IsMapped hash_to_position functions bins lengths some_bin some_function unset t r h
            run in
        let (fits, at_home) =
          entry_at_home hash_to_position functions bins lengths some_bin some_function t r b e m
            at_b real in
        let (raw', rows', (width, filled, columns)) =
          as_raw_2d_vector_no_id_lem hash_to_position functions bins lengths some_bin s hb hf in
        let same_rows : raw' ≡ raw = cc in
        subst (λ l. Member (make_block e.current_function_id e.value) l ↔ Member e.value s.elements)
          (sym (filled b) ∙ ap (λ (x : List (List Block) × ℕ). get_or x.0 b []) same_rows)
          (bin_blocks_iff b e.current_function_id e.value s.elements fits.function_in_range at_home)
