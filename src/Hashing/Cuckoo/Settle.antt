-- ===== src/Hashing/Cuckoo/Settle.antt =====
-- The remapping loop of `MapElementsToTable` in triangle_counting/cuckoo_hashing.cpp.
use sectric.Common.{
  ℕ, zero, suc, ◌+◌, ◌%◌, ◌^◌, ◌-◌, ◌<◌, ◌≤◌, ◌≡◌, ◌≢◌, refl, ◌∙◌, ◌⊎◌, inl, inr, ltb, true, false,
  List, [], ◌∷◌, ◌++◌, arith, length, length-append, Bool-cases,
}
use sectric.Common.Run.{◌>>=◌, Returns, fault, out_of_fuel}
use sectric.Hashing.Entry.{Entry, dummy_element, is_empty}
use sectric.Hashing.Cuckoo.{CuckooTable, settle}
use sectric.Hashing.Cuckoo.Place.{
  hit, tally, tally-append, hit-empty, hit_congr, Fits, Placed, IsSound, exchange-Swapped,
  iterate-Fits, get_current_address-home,
}

module _ (hash_to_position : ℕ → ℕ → List ℕ) (functions bins : ℕ)
    (lengths : (v : ℕ) → length (hash_to_position functions v) ≡ functions) (some_bin : 0 < bins)
    (some_function : 0 < functions) where
  -- What the loop leaves of a table `t` from which `e` was evicted.
  pub record Settled (t : CuckooTable) (e : Entry) (r : CuckooTable) : Type 0 where
    pub placed : Placed hash_to_position functions bins 0 r.hash_table
    pub width : length r.hash_table ≡ bins
    pub kept :
        (g v : ℕ)
        → v ≢ dummy_element
        → tally g v r.hash_table + tally g v r.stash
          ≡ tally g v t.hash_table + tally g v t.stash + hit g v e
    pub spilled : length r.stash ≤ length t.stash + 1
    pub same_bins : r.num_bins ≡ t.num_bins
    pub same_functions : r.num_of_hash_functions ≡ t.num_of_hash_functions
    pub same_elements : r.elements ≡ t.elements
    pub same_limiter : r.recursion_limiter ≡ t.recursion_limiter

  stop-Settled :
      (t : CuckooTable) (e : Entry)
      → Placed hash_to_position functions bins 0 t.hash_table
      → length t.hash_table ≡ bins
      → is_empty e ≡ true
      → Settled t e t
  stop-Settled t e p w empty = record {
    placed = p;
    width = w;
    kept = λ g v h. omega (arith, hit-empty g v e h empty);
    spilled = omega arith;
    same_bins = refl;
    same_functions = refl;
    same_elements = refl;
    same_limiter = refl;
  }

  spill-Settled :
      (t : CuckooTable) (e : Entry)
      → Placed hash_to_position functions bins 0 t.hash_table
      → length t.hash_table ≡ bins
      → Settled t e (record t { stash = t.stash ++ e ∷ [] })
  spill-Settled t e p w = record {
    placed = p;
    width = w;
    kept = λ g v h. omega (arith, tally-append g v t.stash (e ∷ []));
    spilled = omega (arith, length-append t.stash (e ∷ []));
    same_bins = refl;
    same_functions = refl;
    same_elements = refl;
    same_limiter = refl;
  }

  nonempty-Fits :
      {e : Entry}
      → IsSound hash_to_position functions bins e
      → is_empty e ≡ false
      → Fits hash_to_position functions bins e
  nonempty-Fits (inl empty) h = absurd (cc)
  nonempty-Fits (inr fits) h = fits

  -- The counter can exceed the limit, and has not done so.
  abbrev InReach : CuckooTable → ℕ → Type 0
  InReach t step = (t.recursion_limiter + 1 < 2 ^ 64) × (step ≤ t.recursion_limiter + 1)

  -- How the loop ends: out of fuel, which is then too little for a limit that the counter can
  -- exceed, or well, and within such a limit.
  abbrev pub Outcome : ℕ → ℕ → CuckooTable → Entry → Type 0
  Outcome fuel step t e =
      ((settle fuel step t e ≡ fault out_of_fuel)
        × (InReach t step → step + fuel ≤ t.recursion_limiter + 1))
      ⊎ Returns (settle fuel step t e) λ r.
        Settled t e r
        × (InReach t step
            → r.recursive_remappings_counter
              ≤ t.recursive_remappings_counter + (t.recursion_limiter + 1 - step))

  -- The table and the counter after one remapping that puts `table` in place.
  abbrev remapped : CuckooTable → List Entry → CuckooTable
  remapped t table = record t {
    hash_table = table;
    recursive_remappings_counter = (t.recursive_remappings_counter + 1) % 2 ^ 64;
  }

  -- A round that remaps `e`.
  round :
      (fuel step : ℕ) (t : CuckooTable) (e : Entry)
      → Placed hash_to_position functions bins 0 t.hash_table
      → length t.hash_table ≡ bins
      → Fits hash_to_position functions bins e
      → is_empty e ≡ false
      → ltb t.recursion_limiter step ≡ false
      → (out : Entry × List Entry) × IsSound hash_to_position functions bins out.0
        × Placed hash_to_position functions bins 0 out.1
        × (length out.1 ≡ bins)
        × (settle (suc fuel) step t e ≡ settle fuel ((step + 1) % 2 ^ 64) (remapped t out.1) out.0)
        × ((r : CuckooTable) → Settled (remapped t out.1) out.0 r → Settled t e r)
  unfolding settle
  round fuel step t e p w fits full within =
      let (n, step', (fits', id, val)) =
        iterate-Fits hash_to_position functions bins lengths some_bin e some_function fits in
      let (out, swap, s) =
        exchange-Swapped hash_to_position functions bins lengths some_bin t.hash_table n p w
          fits' in
      (
        out,
        s.sound,
        s.placed,
        s.width ∙ w,
        rw
            (
              full,
              settle,
              within,
              step',
              ◌>>=◌,
              get_current_address-home hash_to_position functions bins lengths some_bin n fits',
              swap,
            )
            refl,
        λ r d. record {
          placed = d.placed;
          width = d.width;
          kept = λ g v h. omega (arith, d.kept g v h, s.kept g v, hit_congr g v n e id val);
          spilled = d.spilled;
          same_bins = d.same_bins;
          same_functions = d.same_functions;
          same_elements = d.same_elements;
          same_limiter = d.same_limiter;
        },
      )

  pub settle-Outcome :
      (fuel step : ℕ) (t : CuckooTable) (e : Entry)
      → Placed hash_to_position functions bins 0 t.hash_table
      → length t.hash_table ≡ bins
      → IsSound hash_to_position functions bins e
      → Outcome fuel step t e
  unfolding settle
  settle-Outcome zero step t e p w sound = elim (Bool-cases (is_empty e)) [
    | inl empty ↦ inr (t, rw empty refl, (stop-Settled t e p w empty, λ h. omega arith))
    | inr full ↦ inl (rw full refl, λ h. omega (arith, h.1))
  ]
  settle-Outcome (suc fuel) step t e p w sound = elim (Bool-cases (is_empty e)) [
    | inl empty ↦ inr (t, rw (empty, settle) refl, (stop-Settled t e p w empty, λ h. omega arith))
    | inr full ↦ elim (Bool-cases (ltb t.recursion_limiter step)) [
      | inl past ↦ inr (
        record t { stash = t.stash ++ e ∷ [] },
        rw (full, settle, past) refl,
        (spill-Settled t e p w, λ h. omega arith),
      )
      | inr within ↦
          let (out, sound', p', w', same, back) =
            round fuel step t e p w (nonempty-Fits sound full) full within in
          let t' = remapped t out.1 in
          let next : InReach t step
              → ((step + 1) % 2 ^ 64 ≡ step + 1) × (step + 1 ≤ t.recursion_limiter + 1) =
            λ h. ground (arith, h.0) in
          elim (settle-Outcome fuel ((step + 1) % 2 ^ 64) t' out.0 p' w' sound') [
            | inl (stop, short) ↦ inl (
              same ∙ stop,
              λ h.
                  let (one, low) = next h in
                  omega (arith, one, short (h.0, omega (arith, one, low))),
            )
            | inr (r, run, (d, bound)) ↦ inr (
              r,
              same ∙ run,
              (
                back r d,
                λ h.
                    let (one, low) = next h in
                    omega (arith, one, low, bound (h.0, omega (arith, one, low))),
              ),
            )
          ]
    ]
  ]

  -- From a table whose entries stand in their bins, and for a limit below the largest number of 64
  -- bits, the remapping loop ends without a fault on any fuel that is more than the rounds up to
  -- one above the limit; it keeps every entry in its place, leaves the evicted entry in the table or
  -- in the stash, and makes at most one remapping more than the limit has left.
  pub settle-Settled :
      (fuel step : ℕ) (t : CuckooTable) (e : Entry)
      → t.recursion_limiter < 2 ^ 64 - 1
      → step ≤ t.recursion_limiter + 1
      → t.recursion_limiter + 1 < step + fuel
      → Placed hash_to_position functions bins 0 t.hash_table
      → length t.hash_table ≡ bins
      → IsSound hash_to_position functions bins e
      → Returns (settle fuel step t e) λ r.
        Settled t e r
        × (r.recursive_remappings_counter
            ≤ t.recursive_remappings_counter + (t.recursion_limiter + 1 - step))
  settle-Settled fuel step t e limit started enough p w sound =
      let reach : InReach t step = (omega (arith, limit), started) in
      elim (settle-Outcome fuel step t e p w sound) [
        | inl (stop, short) ↦ absurd (omega (arith, short reach, enough))
        | inr (r, run, (d, bound)) ↦ (r, run, (d, bound reach))
      ]
