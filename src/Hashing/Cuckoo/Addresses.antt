-- ===== src/Hashing/Cuckoo/Addresses.antt =====
-- `GetElementAddresses` of triangle_counting/cuckoo_hashing.cpp. It writes through the indices of a
-- vector that is reserved and empty, and its caller reads it so: `memory` is what was reserved.
use sectric.Common.{
  ℕ, zero, suc, ◌+◌, ◌*◌, ◌<◌, ◌≤◌, ◌≡◌, refl, sym, ap, subst, ◌∙◌, List, [], ◌∷◌, length,
  get_elem?, some, arith,
}
use native.Mathlib.Decide.{ℕ_discrete}
use sectric.Common.Run.{Run, ok, ◌>>=◌, Returns}
use sectric.Common.Loops.{update, update_self, update_apart}
use sectric.Hashing.Entry.{Entry, get_address_at, bin_of, get_address_at-bin_of}
use sectric.Hashing.Cuckoo.{CuckooTable, fresh_entry}
use sectric.Hashing.Cuckoo.Place.{bin}

-- The loop over the functions from `j` on: `hash_addresses[i * num_of_hash_functions_ + j]`.
unfoldable pub write_addresses : ℕ → ℕ → ℕ → Entry → (ℕ → ℕ) → Run (ℕ → ℕ)
write_addresses zero start j e memory = ok memory
write_addresses (suc left) start j e memory = do
  a ← get_address_at e j
  write_addresses left start (suc j) e (update memory (start + j) a)

module _ (hash_to_position : ℕ → ℕ → List ℕ) where
  unfoldable pub addresses_from : CuckooTable → ℕ → List ℕ → (ℕ → ℕ) → Run (ℕ → ℕ)
  addresses_from t i [] memory = ok memory
  addresses_from t i (x ∷ xs) memory = do
    memory' ←
        write_addresses t.num_of_hash_functions (i * t.num_of_hash_functions) 0
          (fresh_entry hash_to_position t i x) memory
    addresses_from t (suc i) xs memory'

  unfoldable pub get_element_addresses : CuckooTable → (ℕ → ℕ) → Run (ℕ → ℕ)
  get_element_addresses t memory = addresses_from t 0 t.elements memory

-- What one element's loop leaves: its addresses, and all else as it was.
write_addresses_lem :
    (left start j : ℕ) (e : Entry) (memory : ℕ → ℕ)
    → length e.possible_addresses ≡ j + left
    → 0 < e.num_of_bins
    → Returns (write_addresses left start j e memory) (λ out.
      ((n : ℕ)
        → j ≤ n
        → n < j + left
        → out (start + n) ≡ bin_of e.possible_addresses e.num_of_bins n)
      × ((x : ℕ) → x < start + j → out x ≡ memory x))
unfolding write_addresses
write_addresses_lem zero start j e memory width some_bin =
    (memory, refl, (λ n l h. absurd (omega arith), λ x h. refl))
write_addresses_lem (suc left) start j e memory width some_bin =
    let a = bin_of e.possible_addresses e.num_of_bins j in
    let address = get_address_at-bin_of e j (omega arith) some_bin in
    let (out, ends, (hit, kept)) =
      write_addresses_lem left start (suc j) e (update memory (start + j) a) (omega arith)
        some_bin in
    (
      out,
      rw address ends,
      (
        λ n l h. elim (ℕ_discrete n j) [
          | yes same ↦
              subst (λ m. out (start + m) ≡ bin_of e.possible_addresses e.num_of_bins m) (sym same)
                (kept (start + j) (omega arith) ∙ update_self memory (start + j) a)
          | no other ↦ hit n (omega (arith, other, l)) (omega arith)
        ],
        λ x h.
            kept x (omega arith)
            ∙ update_apart memory (start + j) x a (λ e. absurd (omega (arith, e, h))),
      ),
    )

module _ (hash_to_position : ℕ → ℕ → List ℕ) (t : CuckooTable)
    (lengths : (v : ℕ)
      → length (hash_to_position t.num_of_hash_functions v) ≡ t.num_of_hash_functions)
    (some_bin : 0 < t.num_bins) where
  -- Place `j` of the addresses of element `i` has its bin under function `j`.
  abbrev pub HasAddresses : ℕ → List ℕ → (ℕ → ℕ) → Type 0
  HasAddresses i xs out =
      (k v j : ℕ)
      → get_elem? xs k ≡ some v
      → j < t.num_of_hash_functions
      → out ((i + k) * t.num_of_hash_functions + j)
        ≡ bin hash_to_position t.num_of_hash_functions t.num_bins v j

  -- The addresses of the first element are kept by the loops for the others.
  first_or_later :
      (i x : ℕ) (xs : List ℕ) (mid out : ℕ → ℕ)
      → ((j : ℕ)
          → 0 ≤ j
          → j < 0 + t.num_of_hash_functions
          → mid (i * t.num_of_hash_functions + j)
            ≡ bin hash_to_position t.num_of_hash_functions t.num_bins x j)
      → HasAddresses (suc i) xs out
      → ((y : ℕ) → y < suc i * t.num_of_hash_functions → out y ≡ mid y)
      → HasAddresses i (x ∷ xs) out
  first_or_later i x xs mid out hit later before zero v j e h =
      let same : x ≡ v = cc in
      let place : (i + 0) * t.num_of_hash_functions + j ≡ i * t.num_of_hash_functions + j =
        omega arith in
      ap out place
      ∙ before (i * t.num_of_hash_functions + j) (omega arith)
      ∙ hit j (omega arith) (omega arith)
      ∙ ap (λ y. bin hash_to_position t.num_of_hash_functions t.num_bins y j) same
  first_or_later i x xs mid out hit later before (suc k) v j e h =
      let place : (i + suc k) * t.num_of_hash_functions + j
          ≡ (suc i + k) * t.num_of_hash_functions + j =
        omega arith in
      ap out place ∙ later k v j e h

  addresses_from_lem :
      (i : ℕ) (xs : List ℕ) (memory : ℕ → ℕ)
      → Returns (addresses_from hash_to_position t i xs memory) (λ out.
        HasAddresses i xs out × ((x : ℕ) → x < i * t.num_of_hash_functions → out x ≡ memory x))
  unfolding addresses_from fresh_entry
  addresses_from_lem i [] memory = (memory, refl, (λ k v j e h. cc, λ x h. refl))
  addresses_from_lem i (x ∷ xs) memory =
      let e = fresh_entry hash_to_position t i x in
      let (mid, ends, (hit, kept)) =
        write_addresses_lem t.num_of_hash_functions (i * t.num_of_hash_functions) 0 e memory
          (lengths x ∙ omega arith) some_bin in
      let (out, ends', (later, before)) = addresses_from_lem (suc i) xs mid in
      (
        out,
        rw ends ends',
        (
          first_or_later i x xs mid out hit later before,
          λ y h. before y (omega arith) ∙ kept y (omega arith),
        ),
      )

  -- For at least one bin and hash functions of the expected number, `GetElementAddresses` ends,
  -- and the memory that it reserved holds, for each element and each function, the bin of the
  -- element under that function.
  pub get_element_addresses_lem :
      (memory : ℕ → ℕ)
      → Returns (get_element_addresses hash_to_position t memory) (HasAddresses 0 t.elements)
  unfolding get_element_addresses
  get_element_addresses_lem memory =
      let (out, ends, (hit, kept)) = addresses_from_lem 0 t.elements memory in (out, ends, hit)
