-- ===== src/Hashing/Cuckoo/Find.antt =====
-- Where an element stands after `MapElementsToTable` of triangle_counting/cuckoo_hashing.cpp.
use sectric.Common.{
  ℕ, zero, suc, ◌+◌, ◌<◌, ◌≡◌, ◌≢◌, refl, subst, ◌∙◌, sym, ap, inl, inr, ◌==◌, ◌&&◌, List, [], ◌∷◌,
  arith, length, Bool-cases, get_elem?, Option, none, some,
}
use native.Mathlib.Nat.{zero-add}
use sectric.Common.Run.{ok}
use sectric.Hashing.Entry.{Entry, dummy_element, is_empty}
use sectric.Hashing.Cuckoo.{CuckooTable, map_elements_to_table}
use sectric.Hashing.Cuckoo.Place.{tally, Fits, Placed, InPlace, home, bin}
use sectric.Hashing.Cuckoo.Mapped.{IsAllocated, IsMapped, run-IsMapped}
use sectric.Hashing.Cuckoo.Expected.{occurs}

-- An entry that is counted stands at some index.
tally-find :
    (g v : ℕ) (es : List Entry)
    → 0 < tally g v es
    → (k : ℕ) × (e : Entry) × (get_elem? es k ≡ some e) × (e.global_id ≡ g) × (e.value ≡ v)
tally-find g v [] h = elim h [ ]
tally-find g v (e ∷ es) h = elim (Bool-cases (e.global_id == g && e.value == v)) [
  | inl here ↦ (0, e, refl, ground arith, ground arith)
  | inr there ↦
      let rest : 0 < tally g v es = ground arith in
      let (k, f, at_k, id, val) = tally-find g v es rest in (suc k, f, at_k, id, val)
]

Placed-at :
    (hash_to_position : ℕ → ℕ → List ℕ) (functions bins i k : ℕ) (es : List Entry) (e : Entry)
    → Placed hash_to_position functions bins i es
    → get_elem? es k ≡ some e
    → InPlace hash_to_position functions bins (i + k) e
Placed-at h f b i k [] e p q = cc
Placed-at h f b i zero (x ∷ es) e p q =
    let same : x ≡ e = cc in
    subst (λ n. InPlace h f b n e) (omega arith) (subst (λ y. InPlace h f b i y) same p.0)
Placed-at h f b i (suc k) (x ∷ es) e p q =
    subst (λ n. InPlace h f b n e) (omega arith) (Placed-at h f b (suc i) k es e p.1 q)

occurs-some : (v : ℕ) (o : Option ℕ) → o ≡ some v → occurs v o ≡ 1
occurs-some v none h = cc
occurs-some v (some x) h = ground arith

full-InPlace :
    (hash_to_position : ℕ → ℕ → List ℕ) (functions bins i : ℕ) (e : Entry)
    → InPlace hash_to_position functions bins i e
    → e.value ≢ dummy_element
    → Fits hash_to_position functions bins e × (home hash_to_position functions bins e ≡ i)
unfolding is_empty
full-InPlace hash_to_position functions bins i e (inl empty) real = absurd (real (ground arith))
full-InPlace hash_to_position functions bins i e (inr there) real = there

module _ (hash_to_position : ℕ → ℕ → List ℕ) (functions bins : ℕ)
    (lengths : (v : ℕ) → length (hash_to_position functions v) ≡ functions) (some_bin : 0 < bins)
    (some_function : 0 < functions) where
  -- The element `v` with identifier `g` stands in the bin of one of its hash functions.
  abbrev pub Found : ℕ → ℕ → List Entry → Type 0
  Found g v table =
      (f : ℕ) × (e : Entry) × (f < functions)
      × (get_elem? table (bin hash_to_position functions bins v f) ≡ some e)
      × (e.global_id ≡ g)
      × (e.value ≡ v)
      × (e.current_function_id ≡ f)

  pub IsMapped-Found :
      (t r : CuckooTable)
      → IsMapped hash_to_position functions bins lengths some_bin some_function t r
      → r.stash ≡ []
      → (g v : ℕ) → v ≢ dummy_element
      → get_elem? t.elements g ≡ some v
      → Found g v r.hash_table
  IsMapped-Found t r m no_stash g v real member =
      let counted : 0 < tally g v r.hash_table =
        omega (arith, m.once g v real, ap (tally g v) no_stash, occurs-some v _ member) in
      let (k, e, at_k, id, val) = tally-find g v r.hash_table counted in
      let (fits, at_home) =
        full-InPlace hash_to_position functions bins k e
          (subst (λ n. InPlace hash_to_position functions bins n e) (zero-add k)
            (Placed-at hash_to_position functions bins 0 k r.hash_table e m.ready.placed at_k))
          (λ d. real (sym val ∙ d)) in
      (
        e.current_function_id,
        e,
        fits.function_in_range,
        subst (λ n. get_elem? r.hash_table n ≡ some e)
            (sym at_home
              ∙ ap (λ x. bin hash_to_position functions bins x e.current_function_id) val)
            at_k,
        id,
        val,
        refl,
      )

  -- After the mapping of an allocated cuckoo table, an element other than the marker of empty
  -- bins stands in the bin of one of its hash functions, under that function's number, if the
  -- stash was not used.
  pub map_elements_to_table-Found :
      (unset : ℕ) (t r : CuckooTable) (g v : ℕ)
      → IsAllocated hash_to_position functions bins lengths some_bin some_function unset t
      → map_elements_to_table hash_to_position t ≡ ok r
      → r.stash ≡ []
      → v ≢ dummy_element
      → get_elem? t.elements g ≡ some v
      → Found g v r.hash_table
  map_elements_to_table-Found unset t r g v h run no_stash real member =
      IsMapped-Found t r
        (run-IsMapped hash_to_position functions bins lengths some_bin some_function unset t r h
          run)
        no_stash g v real member

  -- An occupied bin of a mapped table holds an entry of that bin.
  pub entry_at_home :
      (t r : CuckooTable) (b : ℕ) (e : Entry)
      → IsMapped hash_to_position functions bins lengths some_bin some_function t r
      → get_elem? r.hash_table b ≡ some e
      → e.value ≢ dummy_element
      → Fits hash_to_position functions bins e × (home hash_to_position functions bins e ≡ b)
  entry_at_home t r b e m at_b real =
      full-InPlace hash_to_position functions bins b e
        (subst (λ n. InPlace hash_to_position functions bins n e) (zero-add b)
          (Placed-at hash_to_position functions bins 0 b r.hash_table e m.ready.placed at_b))
        real
