-- ===== src/Hashing/Cuckoo/Expected.antt =====
-- What `MapElementsToTable` of triangle_counting/cuckoo_hashing.cpp starts with, an empty table, and
-- what it is to hold, the elements by their identifiers.
use sectric.Common.{
  ℕ, zero, suc, ◌+◌, ◌<◌, ◌≡◌, ◌≢◌, refl, subst, ap, ◌==◌, ◌&&◌, List, [], ◌∷◌, arith, length,
  if◌then◌else◌, get_elem?, Option, none, some,
}
use native.Mathlib.Nat.{zero-add}
use sectric.Hashing.Entry.{dummy_element, default_entry}
use sectric.Hashing.Cuckoo.{resize}
use sectric.Hashing.Cuckoo.Place.{tally}

-- No element is the value that marks an empty bin.
abbrev pub NoDummy : List ℕ → Type 0
NoDummy [] = Unit
NoDummy (x ∷ xs) = (x ≢ dummy_element) × NoDummy xs

-- 1 if the element with identifier `g` is `v`, counting from identifier `i` on.
abbrev pub expected : ℕ → ℕ → ℕ → List ℕ → ℕ
expected g v i [] = 0
expected g v i (x ∷ xs) = (if i == g && x == v then 1 else 0) + expected g v (suc i) xs

pub expected_before : (g v i : ℕ) (xs : List ℕ) → g < i → expected g v i xs ≡ 0
expected_before g v i [] h = refl
expected_before g v i (x ∷ xs) h = ground (arith, expected_before g v (suc i) xs)

-- 1 if this is the element `v`.
abbrev pub occurs : ℕ → Option ℕ → ℕ
occurs v none = 0
occurs v (some x) = if x == v then 1 else 0

expected-occurs : (v i k : ℕ) (xs : List ℕ) → expected (i + k) v i xs ≡ occurs v (get_elem? xs k)
expected-occurs v i k [] = refl
expected-occurs v i zero (x ∷ xs) = ground (arith, expected_before (i + zero) v (suc i) xs)
expected-occurs v i (suc k) (x ∷ xs) =
    let later : expected (i + suc k) v (suc i) xs ≡ occurs v (get_elem? xs k) =
      subst (λ n. expected n v (suc i) xs ≡ occurs v (get_elem? xs k)) (omega arith)
        (expected-occurs v (suc i) k xs) in
    ground (arith, later)

pub expected_zero-occurs : (v k : ℕ) (xs : List ℕ) → expected k v 0 xs ≡ occurs v (get_elem? xs k)
expected_zero-occurs v k xs =
    subst (λ n. expected n v 0 xs ≡ occurs v (get_elem? xs k)) (zero-add k)
      (expected-occurs v 0 k xs)

pub length-resize : (unset n : ℕ) → length (resize unset n []) ≡ n
unfolding resize
length-resize unset zero = refl
length-resize unset (suc n) = ap suc (length-resize unset n)

pub tally-resize : (unset n g v : ℕ) → v ≢ dummy_element → tally g v (resize unset n []) ≡ 0
unfolding resize default_entry
tally-resize unset zero g v h = refl
tally-resize unset (suc n) g v h = ground (arith, tally-resize unset n g v h)
