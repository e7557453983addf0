-- ===== src/Hashing/Cuckoo/Elements.antt =====
-- `MapElements` of the base class of triangle_counting/cuckoo_hashing.cpp's table: it allocates
-- the table and maps its elements.
use sectric.Common.{
  ℕ, ◌<◌, ◌≡◌, ◌≢◌, refl, sym, ◌∙◌, false, ◌==◌, List, length, get_elem?, some, arith,
}
use sectric.Common.Run.{Run, ok, ◌>>=◌, Returns}
use sectric.Hashing.Entry.{Entry, dummy_element}
use sectric.Hashing.Cuckoo
use sectric.Hashing.Cuckoo.{CuckooTable, resize, allocate_table, map_elements_to_table}
use sectric.Hashing.Cuckoo.Place.{bin}
use sectric.Hashing.Cuckoo.Mapped.{IsAllocated, IsMapped, run-IsMapped}
use sectric.Hashing.Cuckoo.Find.{entry_at_home}

-- `MapElements` of the base class allocates the table and maps its elements.
abbrev pub MapsElements : (ℕ → ℕ → List ℕ) → ℕ → (CuckooTable → Run CuckooTable) → Type 0
MapsElements hash_to_position unset map_elements =
    (t : CuckooTable)
    → map_elements t ≡ allocate_table unset t >>= map_elements_to_table hash_to_position

module _ (hash_to_position : ℕ → ℕ → List ℕ) (functions bins : ℕ)
    (lengths : (v : ℕ) → length (hash_to_position functions v) ≡ functions) (some_bin : 0 < bins)
    (some_function : 0 < functions) where
  -- A new table with its elements is an allocated one after `AllocateTable`.
  allocated :
      (unset : ℕ) (vec : List ℕ)
      → Returns (allocate_table unset (Cuckoo.insert_all (Cuckoo.new bins functions) vec)) λ t.
        IsAllocated hash_to_position functions bins lengths some_bin some_function unset t
        × (t.elements ≡ vec)
  unfolding allocate_table Cuckoo.insert_all Cuckoo.new
  allocated unset vec =
      let some : (bins == 0) ≡ false = ground arith in
      rw some (
        _,
        refl,
        (
          record {
            bins_allocated = refl;
            functions_allocated = refl;
            table_allocated = refl;
            stash_empty = refl;
            counter_zero = refl;
            not_mapped = refl;
          },
          refl,
        ),
      )

  -- The table that `MapElements` made.
  pub IsMapped-table :
      (unset : ℕ) (map_elements : CuckooTable → Run CuckooTable) (vec : List ℕ)
      (table : CuckooTable)
      → MapsElements hash_to_position unset map_elements
      → map_elements (Cuckoo.insert_all (Cuckoo.new bins functions) vec) ≡ ok table
      → (t : CuckooTable) × (t.elements ≡ vec)
        × IsMapped hash_to_position functions bins lengths some_bin some_function t table
  IsMapped-table unset map_elements vec table maps run =
      let (t, made, (fresh, elements)) = allocated unset vec in
      let mapped : map_elements_to_table hash_to_position t ≡ ok table =
        let whole = sym (maps (Cuckoo.insert_all (Cuckoo.new bins functions) vec)) ∙ run in
        rw made at whole in
      (
        t,
        elements,
        run-IsMapped hash_to_position functions bins lengths some_bin some_function unset t table
            fresh mapped,
      )

  pub stands_at_home :
      (t table : CuckooTable)
      → IsMapped hash_to_position functions bins lengths some_bin some_function t table
      → (b : ℕ) (e : Entry) → get_elem? table.hash_table b ≡ some e
      → e.value ≢ dummy_element
      → (e.current_function_id < functions)
        × (bin hash_to_position functions bins e.value e.current_function_id ≡ b)
  stands_at_home t table m b e at_b real =
      let (fits, home) =
        entry_at_home hash_to_position functions bins lengths some_bin some_function t table b e m
          at_b real in
      (fits.function_in_range, home)
