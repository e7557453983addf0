-- ===== src/Hashing/Cuckoo/Mapped.antt =====
-- `MapElementsToTable` of triangle_counting/cuckoo_hashing.cpp as a whole.
use sectric.Common.{
  ℕ, zero, suc, ◌+◌, ◌-◌, ◌*◌, ◌^◌, inr, sym, ◌<◌, ◌≤◌, ◌≡◌, ◌≢◌, refl, subst, ◌∙◌, ap, inl, true,
  false, List, [], arith, length, get_elem?,
}
use sectric.Common.Run.{Returns, ok, fault, ◌>>=◌, out_of_fuel}
use sectric.Hashing.Entry.{Entry, dummy_element, default_entry, is_empty}
use sectric.Hashing.Cuckoo.{CuckooTable, resize, map_from, map_unmapped, map_elements_to_table}
use sectric.Hashing.Cuckoo.Place.{tally, Placed}
use sectric.Hashing.Cuckoo.Expected.{occurs, expected_zero-occurs, length-resize, tally-resize}
use sectric.Hashing.Cuckoo.Progress.{IsReady, Maps, map_from-Outcome}

module _ (hash_to_position : ℕ → ℕ → List ℕ) (functions bins : ℕ)
    (lengths : (v : ℕ) → length (hash_to_position functions v) ≡ functions) (some_bin : 0 < bins)
    (some_function : 0 < functions) where
  -- The table that `hash_table_.resize` makes from an empty vector.
  resize-Placed : (unset n i : ℕ) → Placed hash_to_position functions bins i (resize unset n [])
  unfolding resize default_entry is_empty
  resize-Placed unset zero i = tt
  resize-Placed unset (suc n) i = (inl refl, resize-Placed unset n (suc i))

  -- A table that was allocated and not yet mapped.
  pub record IsAllocated (unset : ℕ) (t : CuckooTable) : Type 0 where
    pub bins_allocated : t.num_bins ≡ bins
    pub functions_allocated : t.num_of_hash_functions ≡ functions
    pub table_allocated : t.hash_table ≡ resize unset bins []
    pub stash_empty : t.stash ≡ []
    pub counter_zero : t.recursive_remappings_counter ≡ 0
    pub not_mapped : t.mapped ≡ false

  IsAllocated-IsReady :
      (unset : ℕ) (t : CuckooTable)
      → IsAllocated unset t
      → IsReady hash_to_position functions bins lengths some_bin some_function t
  IsAllocated-IsReady unset t h = record {
    bins_ready = h.bins_allocated;
    functions_ready = h.functions_allocated;
    width = rw h.table_allocated (length-resize unset bins);
    placed = rw h.table_allocated (resize-Placed unset bins 0);
  }

  -- What the mapping gives: every element, by its identifier and value, stands exactly once in
  -- the table or the stash and nothing else does; every entry of the table stands in the bin that
  -- one of its element's hash functions names.
  pub record IsMapped (t : CuckooTable) (r : CuckooTable) : Type 0 where
    pub mapped : r.mapped ≡ true
    pub ready : IsReady hash_to_position functions bins lengths some_bin some_function r
    pub once :
        (g v : ℕ)
        → v ≢ dummy_element
        → tally g v r.hash_table + tally g v r.stash ≡ occurs v (get_elem? t.elements g)
    pub spilled : length r.stash ≤ length t.elements
    pub same_elements : r.elements ≡ t.elements

  Maps-IsMapped :
      (unset : ℕ) (t r : CuckooTable)
      → IsAllocated unset t
      → Maps hash_to_position functions bins lengths some_bin some_function t 0 t.elements r
      → IsMapped t (record r { mapped = true })
  Maps-IsMapped unset t r h m = record {
    mapped = refl;
    ready = record {
      bins_ready = m.ready.bins_ready;
      functions_ready = m.ready.functions_ready;
      width = m.ready.width;
      placed = m.ready.placed;
    };
    once = λ g v k. omega (
      arith,
      m.kept g v k,
      ap (tally g v) h.table_allocated,
      ap (tally g v) h.stash_empty,
      tally-resize unset bins g v k,
      expected_zero-occurs v g t.elements,
    );
    spilled = omega (arith, m.spilled, ap (length {A = Entry}) h.stash_empty);
    same_elements = m.same_elements;
  }

  -- The run of the mapping, by the run over its elements.
  unmapped_run :
      (unset : ℕ) (t : CuckooTable)
      → IsAllocated unset t
      → map_elements_to_table hash_to_position t
        ≡ map_from hash_to_position 0 t.elements t >>= (λ r. ok (record r { mapped = true }))
  unfolding map_elements_to_table
  unmapped_run unset t h = ap (λ b. map_unmapped hash_to_position b t) h.not_mapped

  -- Whatever the limit: a mapping that ends well is one.
  pub run-IsMapped :
      (unset : ℕ) (t r : CuckooTable)
      → IsAllocated unset t
      → map_elements_to_table hash_to_position t ≡ ok r
      → IsMapped t r
  run-IsMapped unset t r h run =
      elim (map_from-Outcome hash_to_position functions bins lengths some_bin some_function
        t.elements t 0 (IsAllocated-IsReady unset t h)) [
          | inl (stop, large) ↦
              let ended : map_elements_to_table hash_to_position t ≡ fault out_of_fuel =
                unmapped_run unset t h ∙ rw stop refl in
              absurd (let e : fault out_of_fuel ≡ ok r = sym ended ∙ run in cc)
          | inr (s, rest, (m, bound)) ↦
              let ended : map_elements_to_table hash_to_position t
                  ≡ ok (record s { mapped = true }) =
                unmapped_run unset t h ∙ rw rest refl in
              let same : record s { mapped = true } ≡ r = cc in
              subst (λ x. IsMapped t x) same (Maps-IsMapped unset t s h m)
        ]

  -- From an allocated table and hash functions of the expected number, and for a limit below the
  -- largest number of 64 bits, `MapElementsToTable` of the cuckoo table ends without a fault;
  -- every element but the marker of empty bins then stands exactly once in the table or the
  -- stash, and no other element does; every entry of the table stands in the bin that its
  -- function names; the stash is bounded by the number of elements, and the remappings by one more
  -- than the limit for each element.
  pub map_elements_to_table-IsMapped :
      (unset : ℕ) (t : CuckooTable)
      → IsAllocated unset t
      → t.recursion_limiter < 2 ^ 64 - 1
      → Returns (map_elements_to_table hash_to_position t) λ r.
        IsMapped t r
        × (r.recursive_remappings_counter ≤ length t.elements * (t.recursion_limiter + 1))
  map_elements_to_table-IsMapped unset t h limit =
      elim (map_from-Outcome hash_to_position functions bins lengths some_bin some_function
        t.elements t 0 (IsAllocated-IsReady unset t h)) [
          | inl (stop, large) ↦ absurd (omega (arith, large, limit))
          | inr (r, rest, (m, bound)) ↦ (
            record r { mapped = true },
            unmapped_run unset t h ∙ rw rest refl,
            (
              Maps-IsMapped unset t r h m,
              omega (arith, bound (omega (arith, limit)), h.counter_zero),
            ),
          )
        ]
