-- ===== src/Hashing/Simple/Rows.antt =====
-- The rows that `MapElements` and `AsRaw2DVector` of triangle_counting/simple_hashing.cpp make.
use sectric.Common.{
  ℕ, zero, suc, ◌+◌, ◌<◌, ◌≡◌, refl, sym, subst, ◌∙◌, ap, ap₂, false, inl, inr, Bool-cases, ==_iff,
  ◌==◌, List, [], ◌∷◌, ◌++◌, map, length, set, if◌then◌else◌, bit_xor, arith, get_or, length-set,
}
use mathlib.Core.List.{append_assoc, append-nil, map-append}
use native.Mathlib.Nat.{mod-lt}
use sectric.Common.Run.{Run, ok, ◌>>=◌, Returns}
use sectric.Hashing.Entry.{
  Entry, set_current_address, get_address_at, get_address_at-bin_of, at-get_or, bin_of,
}
use sectric.Hashing.Cuckoo.Place.{bin}
use sectric.Hashing.Simple
use sectric.Hashing.Simple.{
  SimpleTable, masked, push_at, fresh_entry, map_functions, map_from, map_unmapped,
  map_elements_to_table, allocate_table, resize, rows_from, as_raw_2d_vector, larger,
}
use sectric.Hashing.Simple.Bins.{get_or-set}

-- `MapElements` of the base class allocates the table and maps its elements.
abbrev pub MapsRows : (ℕ → ℕ → List ℕ) → (SimpleTable → Run SimpleTable) → Type 0
MapsRows hash_to_position map_rows =
    (t : SimpleTable) → map_rows t ≡ allocate_table t >>= map_elements_to_table hash_to_position

-- A row as `AsRaw2DVector` gives it.
abbrev pub raw_row : List (List Entry) → ℕ → List ℕ
raw_row table b = map masked (get_or table b [])

-- One `push_back`, before what comes after it.
pushed_masked :
    (a b : ℕ) (table : List (List Entry)) (x : Entry) (later : List ℕ)
    → a < length table
    → raw_row (set table a (get_or table a [] ++ x ∷ [])) b ++ later
      ≡ raw_row table b ++ ((if a == b then masked x ∷ [] else []) ++ later)
pushed_masked a b table x later inside = elim (Bool-cases (a == b)) [
  | inl same ↦
      rw (get_or-set table a b (get_or table a [] ++ x ∷ []) [] inside, same)
        (subst
          (λ n.
            map masked (get_or table a [] ++ x ∷ []) ++ later
            ≡ raw_row table n ++ (masked x ∷ [] ++ later))
          ((==_iff a b).0 same)
          (ap (λ l. l ++ later) (map-append masked (get_or table a []) (x ∷ []))
            ∙ append_assoc (raw_row table a) (masked x ∷ []) later))
  | inr apart ↦ rw (get_or-set table a b (get_or table a [] ++ x ∷ []) [] inside, apart)
]

rows_from-map :
    (left : ℕ) (bs : List (List Entry))
    → length bs ≡ left
    → rows_from masked left bs ≡ ok (map (λ b. map masked b) bs)
unfolding rows_from
rows_from-map zero [] w = refl
rows_from-map zero (b ∷ bs) w = absurd (omega (arith, w))
rows_from-map (suc left) [] w = absurd (omega (arith, w))
rows_from-map (suc left) (b ∷ bs) w = rw (rows_from-map left bs (omega (arith, w)))

get_or-map_rows :
    (bs : List (List Entry)) (b : ℕ) → get_or (map (λ b. map masked b) bs) b [] ≡ raw_row bs b
get_or-map_rows [] b = refl
get_or-map_rows (x ∷ bs) zero = refl
get_or-map_rows (x ∷ bs) (suc b) = get_or-map_rows bs b

length-map_rows : (bs : List (List Entry)) → length (map (λ b. map masked b) bs) ≡ length bs
length-map_rows [] = refl
length-map_rows (b ∷ bs) = ap suc (length-map_rows bs)

length-resize : (n : ℕ) → length (resize n []) ≡ n
unfolding resize
length-resize zero = refl
length-resize (suc n) = ap suc (length-resize n)

raw_row-resize : (n b : ℕ) → raw_row (resize n []) b ≡ []
unfolding resize
raw_row-resize zero b = refl
raw_row-resize (suc n) zero = refl
raw_row-resize (suc n) (suc b) = raw_row-resize n b

module _ (hash_to_position : ℕ → ℕ → List ℕ) (functions bins : ℕ) where
  -- What element `x` contributes to row `b` under the functions from `i` on, `left` of them.
  abbrev pub keys_of : ℕ → ℕ → ℕ → ℕ → List ℕ
  keys_of b x zero i = []
  keys_of b x (suc left) i =
      (if bin hash_to_position functions bins x i == b then bit_xor x i ∷ [] else [])
      ++ keys_of b x left (suc i)

  -- The keys of row `b`: for each element in order, those functions that name the bin.
  abbrev pub row_keys : ℕ → List ℕ → List ℕ
  row_keys b [] = []
  row_keys b (x ∷ xs) = keys_of b x functions 0 ++ row_keys b xs

  module _ (lengths : (v : ℕ) → length (hash_to_position functions v) ≡ functions)
      (pos : 0 < bins) where
    record Grown (t : SimpleTable) (more : ℕ → List ℕ) (r : SimpleTable) : Type 0 where
      width : length r.hash_table ≡ length t.hash_table
      same_bins : r.num_bins ≡ t.num_bins
      same_functions : r.num_of_hash_functions ≡ t.num_of_hash_functions
      rows_of : (b : ℕ) → raw_row r.hash_table b ≡ raw_row t.hash_table b ++ more b

    map_functions-Grown :
        (left i : ℕ) (e : Entry) (t : SimpleTable)
        → e.possible_addresses ≡ hash_to_position functions e.value
        → e.num_of_bins ≡ bins
        → i + left ≡ functions
        → length t.hash_table ≡ bins
        → Returns
            (map_functions hash_to_position left i e t)
            (Grown t (λ b. keys_of b e.value left i))
    unfolding map_functions push_at set_current_address
    map_functions-Grown zero i e t ha hb hi w = (
      t,
      refl,
      record {
        width = refl;
        same_bins = refl;
        same_functions = refl;
        rows_of = λ b. sym (append-nil (raw_row t.hash_table b));
      },
    )
    map_functions-Grown (suc left) i e t ha hb hi w =
        let a = bin hash_to_position functions bins e.value i in
        let copy : Entry = record e { current_function_id = i } in
        let here : get_address_at copy i ≡ ok a =
          get_address_at-bin_of copy i
            (subst (λ p. i < length p) (sym ha)
              (subst (λ n. i < n) (sym (lengths e.value)) (omega arith)))
            (subst (λ n. 0 < n) (sym hb) pos)
          ∙ ap₂ (λ p n. ok (bin_of p n i)) ha hb in
        let inside : a < length t.hash_table = rw w (mod-lt _ pos) in
        let table = set t.hash_table a (get_or t.hash_table a [] ++ copy ∷ []) in
        let width : length table ≡ length t.hash_table = length-set t.hash_table a _ in
        let (r, run, d) =
          map_functions-Grown left (suc i) e
            (record t {
              hash_table = table;
              max_observed_bin_size = larger (length (get_or table a [])) t.max_observed_bin_size;
            })
            ha hb (omega arith) (width ∙ w) in
        (
          r,
          rw
              (
                here,
                at-get_or t.hash_table a [] inside,
                at-get_or table a [] (subst (λ n. a < n) (sym width) inside),
              )
              run,
          record {
            width = d.width ∙ width;
            same_bins = d.same_bins;
            same_functions = d.same_functions;
            rows_of = λ b.
                d.rows_of b
                ∙ pushed_masked a b t.hash_table copy (keys_of b e.value left (suc i)) inside;
          },
        )

    map_from-Grown :
        (xs : List ℕ) (id : ℕ) (t : SimpleTable)
        → t.num_bins ≡ bins
        → t.num_of_hash_functions ≡ functions
        → length t.hash_table ≡ bins
        → Returns (map_from hash_to_position id xs t) (Grown t (λ b. row_keys b xs))
    unfolding map_from fresh_entry
    map_from-Grown [] id t hb hf w = (
      t,
      refl,
      record {
        width = refl;
        same_bins = refl;
        same_functions = refl;
        rows_of = λ b. sym (append-nil (raw_row t.hash_table b));
      },
    )
    map_from-Grown (x ∷ xs) id t hb hf w =
        let e = fresh_entry hash_to_position t id x in
        let (t', first, m) =
          map_functions-Grown functions 0 e t (ap (λ k. hash_to_position k x) hf) hb (omega arith)
            w in
        let (r, rest, n) =
          map_from-Grown xs (suc id) t' (m.same_bins ∙ hb) (m.same_functions ∙ hf) (m.width ∙ w) in
        (
          r,
          ap (λ k. map_functions hash_to_position k 0 e t >>= map_from hash_to_position (suc id) xs)
                hf
              ∙ rw first rest,
          record {
            width = n.width ∙ m.width;
            same_bins = n.same_bins ∙ m.same_bins;
            same_functions = n.same_functions ∙ m.same_functions;
            rows_of =
                λ b. rw (n.rows_of b, m.rows_of b) (append_assoc (raw_row t.hash_table b) _ _);
          },
        )

    -- For at least one bin, and hash functions of the expected number, allocating a new simple
    -- table, mapping its elements and reading it by `AsRaw2DVector` ends; there is a row for each
    -- bin, and it lists, element by element and function by function, the keys whose address is
    -- that bin.
    pub as_raw_2d_vector-map_rows :
        (map_rows : SimpleTable → Run SimpleTable) (xs : List ℕ)
        → MapsRows hash_to_position map_rows
        → Returns
            (map_rows (Simple.insert_all (Simple.new bins functions) xs) >>= as_raw_2d_vector)
            λ rows. (length rows ≡ bins) × ((b : ℕ) → get_or rows b [] ≡ row_keys b xs)
    unfolding as_raw_2d_vector map_elements_to_table map_unmapped allocate_table Simple.insert_all
        Simple.new
    as_raw_2d_vector-map_rows map_rows xs maps =
        let some : (bins == 0) ≡ false = ground arith in
        let fresh : SimpleTable = record (Simple.insert_all (Simple.new bins functions) xs) {
          hash_table = resize bins [];
        } in
        let (t, run, m) = map_from-Grown xs 0 fresh refl refl (length-resize bins) in
        let width : length t.hash_table ≡ bins = m.width ∙ length-resize bins in
        let bins_left : length t.hash_table ≡ t.num_bins = width ∙ sym m.same_bins in
        rw (maps, some, run, rows_from-map t.num_bins t.hash_table bins_left)
          (
            _,
            refl,
            (
              length-map_rows t.hash_table ∙ width,
              λ b.
                  get_or-map_rows t.hash_table b
                  ∙ m.rows_of b
                  ∙ ap (λ (l : List ℕ). l ++ row_keys b xs) (raw_row-resize bins b),
            ),
          )
