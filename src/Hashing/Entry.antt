-- ===== src/Hashing/Entry.antt =====
-- `HashTableEntry` of debug_files/hash_table_entry.h.
use sectric.Common.{
  ℕ, zero, suc, ◌+◌, ◌-◌, ◌%◌, ◌^◌, ◌<◌, ◌≡◌, refl, Bool, ◌==◌, List, [], arith, length, get_or,
  get_elem?-get_or,
}
use sectric.Common.Run.{Run, ok, ◌>>=◌, at, modulo}

-- `std::numeric_limits<std::size_t>::max()`
abbrev pub dummy_element : ℕ
dummy_element = 2 ^ 64 - 1

pub record Entry : Type 0 where
  pub num_of_hash_functions : ℕ
  pub num_of_bins : ℕ
  pub global_id : ℕ
  pub value : ℕ
  pub current_function_id : ℕ
  pub possible_addresses : List ℕ

-- The default constructor sets the identifier and the value only. What the other numbers then
-- hold is not determined: `unset` stands for it.
unfoldable pub default_entry : ℕ → Entry
default_entry unset = record {
  num_of_hash_functions = unset;
  num_of_bins = unset;
  global_id = dummy_element;
  value = dummy_element;
  current_function_id = unset;
  possible_addresses = [];
}

unfoldable pub set_current_address : Entry → ℕ → Entry
set_current_address e function_id = record e { current_function_id = function_id }

unfoldable pub set_possible_addresses : Entry → List ℕ → Entry
set_possible_addresses e addresses = record e { possible_addresses = addresses }

unfoldable pub get_address_at : Entry → ℕ → Run ℕ
get_address_at e function_id = do a ← at e.possible_addresses function_id; modulo a e.num_of_bins

unfoldable pub get_current_address : Entry → Run ℕ
unfolding get_address_at
get_current_address e = do a ← at e.possible_addresses e.current_function_id; modulo a e.num_of_bins

unfoldable pub is_empty : Entry → Bool
is_empty e = e.value == dummy_element

unfoldable pub iterate_function_number : Entry → Run Entry
iterate_function_number e = do
  f ← modulo ((e.current_function_id + 1) % 2 ^ 64) e.num_of_hash_functions
  ok (record e { current_function_id = f })

-- The bin that function `f` gives to an entry with these addresses.
abbrev pub bin_of : List ℕ → ℕ → ℕ → ℕ
bin_of addresses bins f = get_or addresses f 0 % bins

pub modulo-pos : (a b : ℕ) → 0 < b → modulo a b ≡ ok (a % b)
modulo-pos a zero h = absurd (omega arith)
modulo-pos a (suc b) h = refl

pub at-get_or {ℓ} :
    {A : Type ℓ} (xs : List A) (i : ℕ) (d : A) → i < length xs → at xs i ≡ ok (get_or xs i d)
at-get_or xs i d h = rw (get_elem?-get_or xs i d h, at)

pub get_address_at-bin_of :
    (e : Entry) (f : ℕ)
    → f < length e.possible_addresses
    → 0 < e.num_of_bins
    → get_address_at e f ≡ ok (bin_of e.possible_addresses e.num_of_bins f)
unfolding get_address_at
get_address_at-bin_of e f h k =
    rw (at-get_or e.possible_addresses f 0 h) (modulo-pos _ e.num_of_bins k)
