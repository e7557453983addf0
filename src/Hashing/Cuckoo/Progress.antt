-- ===== src/Hashing/Cuckoo/Progress.antt =====
-- The loop over the elements in `MapElementsToTable` of triangle_counting/cuckoo_hashing.cpp.
use sectric.Common.{
  ℕ, suc, ◌+◌, ◌*◌, ◌^◌, ◌⊎◌, inr, ◌<◌, ◌≤◌, ◌≡◌, ◌≢◌, refl, ◌∙◌, inl, ◌==◌, ◌&&◌, List, [], ◌∷◌,
  arith, length, if◌then◌else◌,
}
use native.Mathlib.Decide.{dec_lt}
use sectric.Common.Run.{Run, Returns, fault, out_of_fuel}
use sectric.Hashing.Entry.{dummy_element}
use sectric.Hashing.Cuckoo.{CuckooTable, fresh_entry, map_element, map_from}
use sectric.Hashing.Cuckoo.Place.{hit, tally, Fits, Placed, exchange-Swapped}
use sectric.Hashing.Cuckoo.Settle.{settle-Outcome}
use sectric.Hashing.Cuckoo.Expected.{expected}

module _ (hash_to_position : ℕ → ℕ → List ℕ) (functions bins : ℕ)
    (lengths : (v : ℕ) → length (hash_to_position functions v) ≡ functions) (some_bin : 0 < bins)
    (some_function : 0 < functions) where
  -- A table during the mapping.
  pub record IsReady (t : CuckooTable) : Type 0 where
    pub bins_ready : t.num_bins ≡ bins
    pub functions_ready : t.num_of_hash_functions ≡ functions
    pub width : length t.hash_table ≡ bins
    pub placed : Placed hash_to_position functions bins 0 t.hash_table

  -- What mapping the elements `xs`, identified from `i` on, adds to `t`.
  pub record Maps (t : CuckooTable) (i : ℕ) (xs : List ℕ) (r : CuckooTable) : Type 0 where
    pub ready : IsReady r
    pub kept :
        (g v : ℕ)
        → v ≢ dummy_element
        → tally g v r.hash_table + tally g v r.stash
          ≡ tally g v t.hash_table + tally g v t.stash + expected g v i xs
    pub spilled : length r.stash ≤ length t.stash + length xs
    pub same_elements : r.elements ≡ t.elements
    pub same_limiter : r.recursion_limiter ≡ t.recursion_limiter

  fresh-Fits :
      (t : CuckooTable) (id x : ℕ)
      → IsReady t
      → Fits hash_to_position functions bins (fresh_entry hash_to_position t id x)
  unfolding fresh_entry
  fresh-Fits t id x h = record {
    functions_fit = h.functions_ready;
    bins_fit = h.bins_ready;
    addresses_fit = rw h.functions_ready;
    function_in_range = some_function;
  }

  fresh_hit :
      (t : CuckooTable) (id x g v : ℕ)
      → hit g v (fresh_entry hash_to_position t id x) ≡ (if id == g && x == v then 1 else 0)
  unfolding fresh_entry
  fresh_hit t id x g v = refl

  -- How mapping `xs`, which are `count`, ends: the remapping loop is out of fuel, which needs a limit
  -- that its counter cannot exceed, or well, and within a limit that it can exceed.
  abbrev pub Outcome : Run CuckooTable → CuckooTable → ℕ → List ℕ → ℕ → Type 0
  Outcome run t id xs count =
      ((run ≡ fault out_of_fuel) × (2 ^ 64 ≤ t.recursion_limiter + 1))
      ⊎ Returns run λ r.
        Maps t id xs r
        × (t.recursion_limiter + 1 < 2 ^ 64
            → r.recursive_remappings_counter
              ≤ t.recursive_remappings_counter + count * (t.recursion_limiter + 1))

  map_element-Outcome :
      (t : CuckooTable) (id x : ℕ)
      → IsReady t
      → Outcome (map_element hash_to_position t id x) t id (x ∷ []) 1
  unfolding map_element
  map_element-Outcome t id x h =
      let e = fresh_entry hash_to_position t id x in
      let (out, swap, s) =
        exchange-Swapped hash_to_position functions bins lengths some_bin t.hash_table e h.placed
          h.width (fresh-Fits t id x h) in
      let t' : CuckooTable = record t { hash_table = out.1 } in
      elim (settle-Outcome hash_to_position functions bins lengths some_bin some_function
        (t.recursion_limiter + 2) 0 t' out.0 s.placed (s.width ∙ h.width) s.sound) [
          | inl (stop, short) ↦ inl (
            rw swap stop,
            elim (dec_lt (t.recursion_limiter + 1) (2 ^ 64)) [
              | yes small ↦ absurd (omega (arith, short (small, omega arith)))
              | no large ↦ omega (arith, large)
            ],
          )
          | inr (r, run, (d, bound)) ↦ inr (
            r,
            rw swap run,
            (
              record {
                ready = record {
                  bins_ready = d.same_bins ∙ h.bins_ready;
                  functions_ready = d.same_functions ∙ h.functions_ready;
                  width = d.width;
                  placed = d.placed;
                };
                kept = λ g v k. omega (arith, d.kept g v k, s.kept g v, fresh_hit t id x g v);
                spilled = omega (arith, d.spilled);
                same_elements = d.same_elements;
                same_limiter = d.same_limiter;
              },
              λ small. omega (arith, bound (small, omega arith)),
            ),
          )
        ]

  Maps-next :
      (xs : List ℕ) (t t' r : CuckooTable) (id x : ℕ)
      → Maps t id (x ∷ []) t'
      → Maps t' (suc id) xs r
      → Maps t id (x ∷ xs) r
  Maps-next xs t t' r id x m n = record {
    ready = n.ready;
    kept = λ g v k. omega (arith, m.kept g v k, n.kept g v k);
    spilled = omega (arith, m.spilled, n.spilled);
    same_elements = n.same_elements ∙ m.same_elements;
    same_limiter = n.same_limiter ∙ m.same_limiter;
  }

  pub map_from-Outcome :
      (xs : List ℕ) (t : CuckooTable) (id : ℕ)
      → IsReady t
      → Outcome (map_from hash_to_position id xs t) t id xs (length xs)
  unfolding map_from
  map_from-Outcome [] t id h = inr (
    t,
    refl,
    (
      record {
        ready = h;
        kept = λ g v k. omega arith;
        spilled = omega arith;
        same_elements = refl;
        same_limiter = refl;
      },
      λ small. omega arith,
    ),
  )
  map_from-Outcome (x ∷ xs) t id h = elim (map_element-Outcome t id x h) [
    | inl (stop, large) ↦ inl (rw stop refl, large)
    | inr (t', first, (m, bound)) ↦ elim (map_from-Outcome xs t' (suc id) m.ready) [
      | inl (stop, large) ↦ inl (rw first stop, omega (arith, large, m.same_limiter))
      | inr (r, rest, (n, later)) ↦ inr (
        r,
        rw first rest,
        (
          Maps-next xs t t' r id x m n,
          λ small.
              let after : r.recursive_remappings_counter
                  ≤ t'.recursive_remappings_counter + length xs * (t.recursion_limiter + 1) =
                rw m.same_limiter at (later (omega (arith, small, m.same_limiter))) in
              omega (arith, bound small, after),
        ),
      )
    ]
  ]
