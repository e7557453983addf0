-- ===== src/Hashing/Simple/Bins.antt =====
-- The bins that `AsRaw2DVectorNoID` of triangle_counting/simple_hashing.cpp fills.
use sectric.Common.{
  ℕ, zero, suc, ◌+◌, ◌<◌, ◌≡◌, refl, sym, subst, ◌∙◌, ap, ap₂, inl, inr, Bool-cases, ==_iff, ◌==◌,
  List, [], ◌∷◌, ◌++◌, length, set, replicate, if◌then◌else◌, arith, get_or, length-set,
  length-replicate,
}
use mathlib.Core.List.{append_assoc, append-nil}
use native.Mathlib.Nat.{mod-lt}
use sectric.Common.Run.{ok, ◌>>=◌, Returns}
use sectric.Hashing.Entry.{
  Entry, set_current_address, get_address_at, get_address_at-bin_of, at-get_or, bin_of,
}
use sectric.Hashing.Cuckoo.Place.{bin}
use sectric.Hashing.Simple.{
  SimpleTable, push_at, fresh_entry, raw_functions, raw_elements, as_raw_2d_vector_no_id,
}
use sectric.Block.Sse.{Block, make_block}

pub get_or-set {ℓ} :
    {A : Type ℓ} (xs : List A) (i j : ℕ) (v d : A)
    → i < length xs
    → get_or (set xs i v) j d ≡ (if i == j then v else get_or xs j d)
get_or-set [] i j v d h = elim h [ ]
get_or-set (x ∷ xs) zero zero v d h = refl
get_or-set (x ∷ xs) zero (suc j) v d h = ground arith
get_or-set (x ∷ xs) (suc i) zero v d h = ground arith
get_or-set (x ∷ xs) (suc i) (suc j) v d h = ground (arith, get_or-set xs i j v d)

get_or-replicate {ℓ} : {A : Type ℓ} (n i : ℕ) (a : A) → get_or (replicate n a) i a ≡ a
get_or-replicate zero i a = refl
get_or-replicate (suc n) zero a = refl
get_or-replicate (suc n) (suc i) a = get_or-replicate n i a

-- One `push_back`, before what comes after it.
pushed {ℓ} :
    {A : Type ℓ} (a b : ℕ) (raw : List (List A)) (x : A) (later : List A)
    → a < length raw
    → get_or (set raw a (get_or raw a [] ++ x ∷ [])) b [] ++ later
      ≡ get_or raw b [] ++ ((if a == b then x ∷ [] else []) ++ later)
pushed a b raw x later inside = elim (Bool-cases (a == b)) [
  | inl same ↦
      rw (get_or-set raw a b (get_or raw a [] ++ x ∷ []) [] inside, same)
        (subst (λ n. (get_or raw a [] ++ x ∷ []) ++ later ≡ get_or raw n [] ++ (x ∷ [] ++ later))
          ((==_iff a b).0 same) (append_assoc (get_or raw a []) (x ∷ []) later))
  | inr apart ↦ rw (get_or-set raw a b (get_or raw a [] ++ x ∷ []) [] inside, apart)
]

module _ (hash_to_position : ℕ → ℕ → List ℕ) (functions bins : ℕ) where
  -- What element `x` contributes to bin `b` under the functions from `i` on, `left` of them.
  abbrev pub row : ℕ → ℕ → ℕ → ℕ → List Block
  row b x zero i = []
  row b x (suc left) i =
      (if bin hash_to_position functions bins x i == b then make_block i x ∷ [] else [])
      ++ row b x left (suc i)

  -- The blocks of bin `b`: for each element in order, those functions that name the bin.
  abbrev pub bin_blocks : ℕ → List ℕ → List Block
  bin_blocks b [] = []
  bin_blocks b (x ∷ xs) = row b x functions 0 ++ bin_blocks b xs

  module _ (lengths : (v : ℕ) → length (hash_to_position functions v) ≡ functions)
      (pos : 0 < bins) where
    pub record Added (raw : List (List Block)) (more : ℕ → List Block) (r : List (List Block))
        : Type 0 where
      pub width : length r ≡ length raw
      pub bins_of : (b : ℕ) → get_or r b [] ≡ get_or raw b [] ++ more b

    raw_functions-Added :
        (left i : ℕ) (e : Entry) (raw : List (List Block))
        → e.possible_addresses ≡ hash_to_position functions e.value
        → e.num_of_bins ≡ bins
        → i + left ≡ functions
        → length raw ≡ bins
        → Returns
            (raw_functions hash_to_position left i e raw)
            (Added raw (λ b. row b e.value left i))
    unfolding raw_functions push_at set_current_address
    raw_functions-Added zero i e raw ha hb hi w =
        (raw, refl, record { width = refl; bins_of = λ b. sym (append-nil (get_or raw b [])) })
    raw_functions-Added (suc left) i e raw ha hb hi w =
        let a = bin hash_to_position functions bins e.value i in
        let copy : Entry = record e { current_function_id = i } in
        let here : get_address_at copy i ≡ ok a =
          get_address_at-bin_of copy i
            (subst (λ p. i < length p) (sym ha)
              (subst (λ n. i < n) (sym (lengths e.value)) (omega arith)))
            (subst (λ n. 0 < n) (sym hb) pos)
          ∙ ap₂ (λ p n. ok (bin_of p n i)) ha hb in
        let inside : a < length raw = rw w (mod-lt _ pos) in
        let raw' = set raw a (get_or raw a [] ++ make_block i e.value ∷ []) in
        let (r, run, d) =
          raw_functions-Added left (suc i) e raw' ha hb (omega arith) (length-set raw a _ ∙ w) in
        (
          r,
          rw (here, ◌>>=◌, at-get_or raw a [] inside) run,
          record {
            width = d.width ∙ length-set raw a _;
            bins_of = λ b. d.bins_of b ∙ pushed a b raw (make_block i e.value) _ inside;
          },
        )

    raw_elements-Added :
        (t : SimpleTable) (xs : List ℕ) (id : ℕ) (raw : List (List Block))
        → t.num_bins ≡ bins
        → t.num_of_hash_functions ≡ functions
        → length raw ≡ bins
        → Returns (raw_elements hash_to_position t id xs raw) (Added raw (λ b. bin_blocks b xs))
    unfolding raw_elements fresh_entry
    raw_elements-Added t [] id raw hb hf w =
        (raw, refl, record { width = refl; bins_of = λ b. sym (append-nil (get_or raw b [])) })
    raw_elements-Added t (x ∷ xs) id raw hb hf w =
        let e = fresh_entry hash_to_position t id x in
        let (raw', first, m) =
          raw_functions-Added functions 0 e raw (ap (λ k. hash_to_position k x) hf) hb (omega arith)
            w in
        let (r, rest, n) = raw_elements-Added t xs (suc id) raw' hb hf (m.width ∙ w) in
        (
          r,
          ap
                (λ k.
                  raw_functions hash_to_position k 0 e raw
                  >>= raw_elements hash_to_position t (suc id) xs)
                hf
              ∙ rw first rest,
          record {
            width = n.width ∙ m.width;
            bins_of = λ b. rw (n.bins_of b, m.bins_of b) (append_assoc (get_or raw b []) _ _);
          },
        )

    pub as_raw_2d_vector_no_id_lem :
        (t : SimpleTable)
        → t.num_bins ≡ bins
        → t.num_of_hash_functions ≡ functions
        → Returns (as_raw_2d_vector_no_id hash_to_position t) λ r.
          (length r.0 ≡ bins) × ((b : ℕ) → get_or r.0 b [] ≡ bin_blocks b t.elements) × (r.1 ≡ 0)
    unfolding as_raw_2d_vector_no_id
    as_raw_2d_vector_no_id_lem t hb hf =
        let start : List (List Block) = replicate t.num_bins [] in
        let w : length start ≡ bins = length-replicate t.num_bins [] ∙ hb in
        let (r, run, m) = raw_elements-Added t t.elements 0 start hb hf w in
        (
          (r, 0),
          rw run,
          (
            m.width ∙ w,
            λ b.
                m.bins_of b
                ∙ ap (λ (l : List Block). l ++ bin_blocks b t.elements)
                    (get_or-replicate t.num_bins b []),
            refl,
          ),
        )
