-- ===== src/Hashing/Cuckoo.antt =====
-- `CuckooTable` of triangle_counting/cuckoo_hashing.cpp: the table and its operations.
pub mod Place
pub mod Find
pub mod Expected
pub mod Progress
pub mod Mapped
pub mod Settle
pub mod Census
pub mod Elements
pub mod Addresses
use sectric.Common.{
  ℕ, zero, suc, ◌+◌, ◌-◌, ◌*◌, ◌%◌, ◌^◌, ◌<◌, ◌≡◌, refl, Bool, true, false, ◌==◌, ◌&&◌, List, [],
  ◌∷◌, ◌++◌, arith, length, set, replicate, map, if◌then◌else◌, bit_xor, ltb, not,
}
use sectric.Common.Run.{
  Run, ok, fault, ◌>>=◌, at, out_of_range, assertion, no_size, negative_epsilon, out_of_fuel,
}
use sectric.Hashing.Entry.{
  Entry, dummy_element, default_entry, set_current_address, set_possible_addresses,
  get_current_address, get_address_at, is_empty, iterate_function_number,
}
use sectric.Block.Sse.{Block, make_block}

-- A `double`, seen through what the code does with it: its comparisons with 0, and the ceiling
-- of its product with a size.
pub record Epsilon : Type 0 where
  pub is_zero : Bool
  pub is_negative : Bool
  pub is_positive : Bool
  pub ceil_product : ℕ → ℕ

abbrev pub no_epsilon : Epsilon
no_epsilon = record {
  is_zero = true;
  is_negative = false;
  is_positive = false;
  ceil_product = λ n. 0;
}

pub record CuckooTable : Type 0 where
  pub epsilon : Epsilon
  pub num_bins : ℕ
  pub num_of_hash_functions : ℕ
  pub elements : List ℕ
  pub mapped : Bool
  pub hash_table : List Entry
  pub stash : List Entry
  pub recursion_limiter : ℕ
  pub recursive_remappings_counter : ℕ

-- `CuckooTable(num_of_bins)` and `SetNumOfHashFunctions`
unfoldable pub new : ℕ → ℕ → CuckooTable
new num_of_bins functions = record {
  epsilon = no_epsilon;
  num_bins = num_of_bins;
  num_of_hash_functions = functions;
  elements = [];
  mapped = false;
  hash_table = [];
  stash = [];
  recursion_limiter = 200;
  recursive_remappings_counter = 0;
}

unfoldable pub insert : CuckooTable → ℕ → CuckooTable
insert t element = record t { elements = t.elements ++ element ∷ [] }

unfoldable pub insert_all : CuckooTable → List ℕ → CuckooTable
insert_all t new_elements = record t { elements = t.elements ++ new_elements }

unfoldable pub set_recursive_insertion_limiter : CuckooTable → ℕ → CuckooTable
set_recursive_insertion_limiter t limiter = record t { recursion_limiter = limiter }

-- `hash_table_.resize(num_bins_)`: the entries beyond the new size go, new ones are default.
unfoldable pub resize : ℕ → ℕ → List Entry → List Entry
resize unset zero es = []
resize unset (suc n) [] = default_entry unset ∷ resize unset n []
resize unset (suc n) (e ∷ es) = e ∷ resize unset n es

abbrev sized : ℕ → CuckooTable → Run CuckooTable
sized unset t =
    if t.num_bins == 0
    then fault assertion
    else ok (record t { hash_table = resize unset t.num_bins t.hash_table })

unfoldable pub allocate_table : ℕ → CuckooTable → Run CuckooTable
allocate_table unset t =
    if t.num_bins == 0 && t.epsilon.is_zero
    then fault no_size
    else if t.epsilon.is_negative
    then fault negative_epsilon
    else sized unset (
        if t.epsilon.is_positive
        then record t { num_bins = t.epsilon.ceil_product (length t.elements) }
        else t)

-- `std::swap(entry, hash_table_.at(entry.GetCurrentAddress()))`: what was there, and the table.
unfoldable pub exchange : List Entry → Entry → Run (Entry × List Entry)
exchange table entry = do
  a ← get_current_address entry
  old ← at table a
  ok (old, set table a entry)

-- The remapping loop, on fuel. `recursion_step` is a counter of 64 bits: with the largest number of
-- 64 bits as the limit it never exceeds the limit, and the loop need not end.
unfoldable pub settle : ℕ → ℕ → CuckooTable → Entry → Run CuckooTable
settle zero recursion_step t current = if is_empty current then ok t else fault out_of_fuel
settle (suc fuel) recursion_step t current = elim (is_empty current) [
  | true ↦ ok t
  | false ↦ elim (ltb t.recursion_limiter recursion_step) [
    | true ↦ ok (record t { stash = t.stash ++ current ∷ [] })
    | false ↦ do
      next ← iterate_function_number current
      _ ← get_current_address next
      (evicted, table) ← exchange t.hash_table next
      settle fuel ((recursion_step + 1) % 2 ^ 64)
          (record t {
            hash_table = table;
            recursive_remappings_counter = (t.recursive_remappings_counter + 1) % 2 ^ 64;
          })
          evicted
  ]
]

module _ (hash_to_position : ℕ → ℕ → List ℕ) where
  -- The entry of a new element, at its first function.
  unfoldable pub fresh_entry : CuckooTable → ℕ → ℕ → Entry
  unfolding set_current_address set_possible_addresses
  fresh_entry t id element =
      let e : Entry = record {
        num_of_hash_functions = t.num_of_hash_functions;
        num_of_bins = t.num_bins;
        global_id = id;
        value = element;
        current_function_id = 0;
        possible_addresses = [];
      } in
      set_current_address
        (set_possible_addresses e (hash_to_position t.num_of_hash_functions element)) 0

  -- The fuel is enough for every limit that the counter can exceed.
  unfoldable pub map_element : CuckooTable → ℕ → ℕ → Run CuckooTable
  map_element t id element = do
    (evicted, table) ← exchange t.hash_table (fresh_entry t id element)
    settle (t.recursion_limiter + 2) 0 (record t { hash_table = table }) evicted

  unfoldable pub map_from : ℕ → List ℕ → CuckooTable → Run CuckooTable
  map_from id [] t = ok t
  map_from id (x ∷ xs) t = do t' ← map_element t id x; map_from (suc id) xs t'

  -- Under the value of `mapped_`, which the function asserts to be false.
  unfoldable pub map_unmapped : Bool → CuckooTable → Run CuckooTable
  map_unmapped true t = fault assertion
  map_unmapped false t = do t' ← map_from 0 t.elements t; ok (record t' { mapped = true })

  unfoldable pub map_elements_to_table : CuckooTable → Run CuckooTable
  unfolding map_unmapped
  map_elements_to_table t = map_unmapped t.mapped t

-- The loops over the bins read `hash_table_.at(i)` for `i` from 0 to `num_bins_`; they are walks
-- along the vector with the number of bins that are left, and throw where the vector ends first.
unfoldable pub raw_from : ℕ → List Entry → Run (List ℕ)
raw_from zero es = ok []
raw_from (suc left) [] = fault out_of_range
raw_from (suc left) (e ∷ es) = do
  rest ← raw_from left es
  ok (bit_xor e.value e.current_function_id ∷ rest)

-- `AsRawVector`
unfoldable pub as_raw_vector : CuckooTable → Run (List ℕ)
unfolding raw_from
as_raw_vector t = raw_from t.num_bins t.hash_table

-- From bin `i` on, the bins that hold an element, and their blocks.
unfoldable pub no_id_from : ℕ → ℕ → List Entry → Run (List ℕ × List Block)
no_id_from zero i es = ok ([], [])
no_id_from (suc left) i [] = fault out_of_range
no_id_from (suc left) i (e ∷ es) = do
  rest ← no_id_from left (suc i) es
  ok (
      if e.value == dummy_element
      then rest
      else (i ∷ rest.0, make_block e.current_function_id e.value ∷ rest.1))

-- `AsRawVectorNoID`
unfoldable pub as_raw_vector_no_id : CuckooTable → Run (List ℕ × List Block)
unfolding no_id_from
as_raw_vector_no_id t = no_id_from t.num_bins 0 t.hash_table

unfoldable pub get_num_of_elements_in_bins : CuckooTable → List ℕ
get_num_of_elements_in_bins t = map (λ e. if is_empty e then 0 else 1) t.hash_table
