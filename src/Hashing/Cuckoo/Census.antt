-- ===== src/Hashing/Cuckoo/Census.antt =====
-- Sums over the entries of the table of triangle_counting/cuckoo_hashing.cpp and over the elements
-- that were inserted.
use sectric.Common.{
  ℕ, suc, ◌+◌, ◌<◌, ◌≡◌, ◌≢◌, refl, ap, ◌∙◌, inl, inr, false, ◌==◌, ◌&&◌, List, [], ◌∷◌, arith,
  length, if◌then◌else◌, Bool-cases,
}
use sectric.Common.Run.{ok}
use sectric.Hashing.Entry.{Entry, dummy_element}
use sectric.Hashing.Cuckoo.{CuckooTable, map_elements_to_table}
use sectric.Hashing.Cuckoo.Place.{tally}
use sectric.Hashing.Cuckoo.Expected.{NoDummy, expected, expected_before, expected_zero-occurs}
use sectric.Hashing.Cuckoo.Mapped.{IsAllocated, IsMapped, run-IsMapped}

-- The sum of `w` over the elements of the entries, empty ones left out.
abbrev pub entry_sum : (ℕ → ℕ) → List Entry → ℕ
entry_sum w [] = 0
entry_sum w (e ∷ es) = (if e.value == dummy_element then 0 else w e.value) + entry_sum w es

abbrev pub element_sum : (ℕ → ℕ) → List ℕ → ℕ
element_sum w [] = 0
element_sum w (x ∷ xs) = w x + element_sum w xs

-- The entries without the first one of this identifier and value.
abbrev remove : ℕ → ℕ → List Entry → List Entry
remove g v [] = []
remove g v (e ∷ es) = if e.global_id == g && e.value == v then es else e ∷ remove g v es

tally-remove :
    (g v g' v' : ℕ) (es : List Entry)
    → 0 < tally g v es
    → tally g' v' es ≡ (if g == g' && v == v' then 1 else 0) + tally g' v' (remove g v es)
tally-remove g v g' v' [] h = elim h [ ]
tally-remove g v g' v' (e ∷ es) h = elim (Bool-cases (e.global_id == g && e.value == v)) [
  | inl here ↦
      let id : e.global_id ≡ g = ground arith in
      let val : e.value ≡ v = ground arith in rw here (rw (id, val) refl)
  | inr there ↦
      let later : 0 < tally g v es = ground arith in
      rw there (omega (arith, tally-remove g v g' v' es later))
]

entry_sum-remove :
    (w : ℕ → ℕ) (g v : ℕ) (es : List Entry)
    → v ≢ dummy_element
    → 0 < tally g v es
    → entry_sum w es ≡ w v + entry_sum w (remove g v es)
entry_sum-remove w g v [] real h = elim h [ ]
entry_sum-remove w g v (e ∷ es) real h = elim (Bool-cases (e.global_id == g && e.value == v)) [
  | inl here ↦
      let val : e.value ≡ v = ground arith in
      let full : (v == dummy_element) ≡ false = ground arith in rw here (rw (val, full) refl)
  | inr there ↦
      let later : 0 < tally g v es = ground arith in
      rw there (omega (arith, entry_sum-remove w g v es real later))
]

-- An entry that holds an element is counted.
none_counted :
    (w : ℕ → ℕ) (es : List Entry)
    → ((g v : ℕ) → v ≢ dummy_element → tally g v es ≡ 0)
    → entry_sum w es ≡ 0
none_counted w [] h = refl
none_counted w (e ∷ es) h = elim (Bool-cases (e.value == dummy_element)) [
  | inl empty ↦ rw empty (omega (arith, none_counted w es (λ g v real. omega (arith, h g v real))))
  | inr full ↦ let itself = h e.global_id e.value (λ d. ground arith) in absurd (ground arith)
]

pub census :
    (w : ℕ → ℕ) (xs : List ℕ) (i : ℕ) (es : List Entry)
    → NoDummy xs
    → ((g v : ℕ) → v ≢ dummy_element → tally g v es ≡ expected g v i xs)
    → entry_sum w es ≡ element_sum w xs
census w [] i es clean h = none_counted w es h
census w (x ∷ xs) i es clean h =
    let one : expected i x i (x ∷ xs) ≡ 1 = ground (arith, expected_before i x (suc i) xs) in
    let there : 0 < tally i x es = omega (arith, h i x clean.0, one) in
    entry_sum-remove w i x es clean.0 there
    ∙ ap (λ (n : ℕ). w x + n)
        (census w xs (suc i) (remove i x es) clean.1
          (λ g v real. omega (arith, tally-remove i x g v es there, h g v real)))

module _ (hash_to_position : ℕ → ℕ → List ℕ) (functions bins : ℕ)
    (lengths : (v : ℕ) → length (hash_to_position functions v) ≡ functions) (some_bin : 0 < bins)
    (some_function : 0 < functions) where
  pub IsMapped-entry_sum :
      (t r : CuckooTable) (w : ℕ → ℕ)
      → IsMapped hash_to_position functions bins lengths some_bin some_function t r
      → NoDummy t.elements
      → r.stash ≡ []
      → entry_sum w r.hash_table ≡ element_sum w t.elements
  IsMapped-entry_sum t r w m clean no_stash = census w t.elements 0 r.hash_table clean (λ g v real.
      omega (arith, m.once g v real, ap (tally g v) no_stash, expected_zero-occurs v g t.elements))

  -- After the mapping of an allocated cuckoo table, if no element is the marker of empty bins and
  -- the stash was not used, the sum of any weight over the entries that hold an element is the
  -- sum over the inserted elements.
  pub map_elements_to_table-entry_sum :
      (unset : ℕ) (t r : CuckooTable) (w : ℕ → ℕ)
      → IsAllocated hash_to_position functions bins lengths some_bin some_function unset t
      → map_elements_to_table hash_to_position t ≡ ok r
      → NoDummy t.elements
      → r.stash ≡ []
      → entry_sum w r.hash_table ≡ element_sum w t.elements
  map_elements_to_table-entry_sum unset t r w h run clean no_stash =
      IsMapped-entry_sum t r w
        (run-IsMapped hash_to_position functions bins lengths some_bin some_function unset t r h
          run)
        clean no_stash
