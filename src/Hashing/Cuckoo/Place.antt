-- ===== src/Hashing/Cuckoo/Place.antt =====
-- One swap into the table of triangle_counting/cuckoo_hashing.cpp, and the places of its entries.
use sectric.Common.{
  ℕ, zero, suc, ◌+◌, ◌%◌, ◌^◌, ◌<◌, ◌≡◌, ◌≢◌, refl, subst, ◌⊎◌, inl, inr, true, ◌==◌, ◌&&◌, List,
  [], ◌∷◌, ◌++◌, arith, length, set, get_or, length-set, if◌then◌else◌,
}
use native.Mathlib.Nat.{mod-lt}
use sectric.Common.Run.{ok, Returns}
use sectric.Hashing.Entry.{
  Entry, dummy_element, get_current_address, is_empty, iterate_function_number, bin_of, modulo-pos,
  at-get_or,
}
use sectric.Hashing.Cuckoo.{exchange}

-- How often an entry stands in a list, by the identifier and the value of its element.
abbrev pub hit : ℕ → ℕ → Entry → ℕ
hit g v e = if e.global_id == g && e.value == v then 1 else 0

abbrev pub tally : ℕ → ℕ → List Entry → ℕ
tally g v [] = 0
tally g v (e ∷ es) = hit g v e + tally g v es

pub tally-append :
    (g v : ℕ) (es fs : List Entry) → tally g v (es ++ fs) ≡ tally g v es + tally g v fs
tally-append g v [] fs = omega arith
tally-append g v (e ∷ es) fs = omega (arith, tally-append g v es fs)

module _ (hash_to_position : ℕ → ℕ → List ℕ) (functions bins : ℕ) where
  -- An entry as the table makes it: its addresses are those of its element, and its function is
  -- one of the table's.
  pub record Fits (e : Entry) : Type 0 where
    pub functions_fit : e.num_of_hash_functions ≡ functions
    pub bins_fit : e.num_of_bins ≡ bins
    pub addresses_fit : e.possible_addresses ≡ hash_to_position functions e.value
    pub function_in_range : e.current_function_id < functions

  -- The bin of an element under one function, and the bin where an entry belongs.
  abbrev pub bin : ℕ → ℕ → ℕ
  bin v f = bin_of (hash_to_position functions v) bins f

  abbrev pub home : Entry → ℕ
  home e = bin e.value e.current_function_id

  abbrev pub InPlace : ℕ → Entry → Type 0
  InPlace i e = (is_empty e ≡ true) ⊎ (Fits e × (home e ≡ i))

  -- Every entry from bin `i` on is empty, or stands in the bin of its element and function.
  abbrev pub Placed : ℕ → List Entry → Type 0
  Placed i [] = Unit
  Placed i (e ∷ es) = InPlace i e × Placed (suc i) es

  pub Placed-set :
      (i k : ℕ) (es : List Entry) (e : Entry)
      → Placed i es
      → InPlace (i + k) e
      → Placed i (set es k e)
  Placed-set i k [] e p q = tt
  Placed-set i zero (x ∷ es) e p q = (subst (λ n. InPlace n e) (omega arith) q, p.1)
  Placed-set i (suc k) (x ∷ es) e p q =
      (p.0, Placed-set (suc i) k es e p.1 (subst (λ n. InPlace n e) (omega arith) q))

  pub Placed-get :
      (i k : ℕ) (es : List Entry) (d : Entry)
      → Placed i es
      → k < length es
      → InPlace (i + k) (get_or es k d)
  Placed-get i k [] d p h = elim h [ ]
  Placed-get i zero (x ∷ es) d p h = subst (λ n. InPlace n x) (omega arith) p.0
  Placed-get i (suc k) (x ∷ es) d p h =
      subst (λ n. InPlace n (get_or es k d)) (omega arith)
        (Placed-get (suc i) k es d p.1 (omega arith))

  pub tally-set :
      (g v k : ℕ) (es : List Entry) (e d : Entry)
      → k < length es
      → tally g v (set es k e) + hit g v (get_or es k d) ≡ tally g v es + hit g v e
  tally-set g v k [] e d h = elim h [ ]
  tally-set g v zero (x ∷ es) e d h = omega arith
  tally-set g v (suc k) (x ∷ es) e d h = omega (arith, tally-set g v k es e d (omega arith))

  abbrev pub IsSound : Entry → Type 0
  IsSound e = (is_empty e ≡ true) ⊎ Fits e

  IsSound-of : {i : ℕ} {e : Entry} → InPlace i e → IsSound e
  IsSound-of (inl empty) = inl empty
  IsSound-of (inr (fits, at_home)) = inr fits

  -- What a swap of `e` into the table gives.
  pub record Swapped (table : List Entry) (e : Entry) (r : Entry × List Entry) : Type 0 where
    pub sound : IsSound r.0
    pub placed : Placed 0 r.1
    pub width : length r.1 ≡ length table
    pub kept : (g v : ℕ) → tally g v r.1 + hit g v r.0 ≡ tally g v table + hit g v e

  module _ (lengths : (v : ℕ) → length (hash_to_position functions v) ≡ functions)
      (pos : 0 < bins) where
    pub get_current_address-home : (e : Entry) → Fits e → get_current_address e ≡ ok (home e)
    unfolding get_current_address
    get_current_address-home e h =
        rw
          (
            h.addresses_fit,
            h.bins_fit,
            at-get_or (hash_to_position functions e.value) e.current_function_id 0
                (rw lengths h.function_in_range),
          )
          (modulo-pos _ bins pos)

    pub home-lt : (e : Entry) → home e < bins
    home-lt e = mod-lt _ pos

    pub exchange-Swapped :
        (table : List Entry) (e : Entry)
        → Placed 0 table
        → length table ≡ bins
        → Fits e
        → Returns (exchange table e) (Swapped table e)
    unfolding exchange
    exchange-Swapped table e p w h =
        let inside : home e < length table = rw w (home-lt e) in
        (
          (get_or table (home e) e, set table (home e) e),
          rw (get_current_address-home e h, at-get_or table (home e) e inside),
          record {
            sound = IsSound-of (Placed-get 0 (home e) table e p inside);
            placed = Placed-set 0 (home e) table e p (inr (h, omega arith));
            width = length-set table (home e) e;
            kept = λ g v. tally-set g v (home e) table e e inside;
          },
        )

    pub iterate-Fits :
        (e : Entry)
        → 0 < functions
        → Fits e
        → Returns
            (iterate_function_number e)
            λ n. Fits n × (n.global_id ≡ e.global_id) × (n.value ≡ e.value)
    unfolding iterate_function_number
    iterate-Fits e some_function h = (
      record e { current_function_id = (e.current_function_id + 1) % 2 ^ 64 % functions },
      rw (
        h.functions_fit,
        modulo-pos ((e.current_function_id + 1) % 2 ^ 64) functions some_function,
      ),
      (
        record {
          functions_fit = h.functions_fit;
          bins_fit = h.bins_fit;
          addresses_fit = h.addresses_fit;
          function_in_range = mod-lt _ some_function;
        },
        refl,
        refl,
      ),
    )

pub hit-empty : (g v : ℕ) (e : Entry) → v ≢ dummy_element → is_empty e ≡ true → hit g v e ≡ 0
unfolding is_empty
hit-empty g v e h empty = ground arith

pub hit_congr :
    (g v : ℕ) (n e : Entry) → n.global_id ≡ e.global_id → n.value ≡ e.value → hit g v n ≡ hit g v e
hit_congr g v n e id val = rw (id, val)
