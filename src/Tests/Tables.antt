-- ===== src/Tests/Tables.antt =====
-- The hash tables of triangle_counting/cuckoo_hashing.cpp and triangle_counting/simple_hashing.cpp
-- on concrete elements.
use sectric.Common.{
  true, false, inl, inr, ℕ, zero, suc, ◌+◌, ◌*◌, ◌≤◌, ◌≡◌, ◌≢◌, ◌↔◌, refl, List, [], ◌∷◌, length,
  get_or, arith,
}
use sectric.Common.Run.{ok, Returns}
use sectric.Block.Sse.{Block, make_block}
use sectric.Hashing.Entry.{
  Entry, dummy_element, default_entry, is_empty, iterate_function_number, get_current_address,
  get_address_at, set_current_address, set_possible_addresses,
}
use sectric.Hashing.Cuckoo.{
  CuckooTable, no_epsilon, resize, settle, map_elements_to_table, map_from, map_element,
  fresh_entry, exchange,
}
use sectric.Hashing.Cuckoo.Place.{Fits, Placed}
use sectric.Hashing.Cuckoo.Settle.{Settled, settle-Settled}
use sectric.Hashing.Cuckoo.Mapped.{IsAllocated, IsMapped, map_elements_to_table-IsMapped}
use sectric.Hashing.Cuckoo.Census.{entry_sum, map_elements_to_table-entry_sum}
use sectric.Hashing.Cuckoo.Find.{Found, map_elements_to_table-Found}
use sectric.Hashing.Simple
use sectric.Hashing.Simple.{
  SimpleTable, as_raw_2d_vector_no_id, raw_elements, raw_functions, push_at,
}
use sectric.Hashing.Agree.{Member, tables_agree}

-- Hash functions that give an element's address and the ones after it.
abbrev pub addresses : ℕ → ℕ → List ℕ
addresses zero v = []
addresses (suc k) v = v ∷ addresses k (v + 1)

abbrev pub elements : List ℕ
elements = 3 ∷ 7 ∷ 8 ∷ []

abbrev pub receiver_table : CuckooTable
receiver_table = record {
  epsilon = no_epsilon;
  num_bins = 4;
  num_of_hash_functions = 2;
  elements = elements;
  mapped = false;
  hash_table = resize 9 4 [];
  stash = [];
  recursion_limiter = 200;
  recursive_remappings_counter = 0;
}

abbrev lengths : (v : ℕ) → length (addresses 2 v) ≡ 2
lengths v = refl

receiver_table-IsAllocated :
    IsAllocated addresses 2 4 lengths (omega arith) (omega arith) 9 receiver_table
receiver_table-IsAllocated = record {
  bins_allocated = refl;
  functions_allocated = refl;
  table_allocated = refl;
  stash_empty = refl;
  counter_zero = refl;
  not_mapped = refl;
}

-- The entry of an element at its first function.
abbrev pub entry_of : ℕ → ℕ → Entry
entry_of id v = record {
  num_of_hash_functions = 2;
  num_of_bins = 4;
  global_id = id;
  value = v;
  current_function_id = 0;
  possible_addresses = addresses 2 v;
}

-- The second element took the first one's bin.
abbrev evicting : CuckooTable
evicting = record receiver_table {
  hash_table = default_entry 9 ∷ default_entry 9 ∷ default_entry 9 ∷ entry_of 1 7 ∷ [];
}

fits : (id v : ℕ) → Fits addresses 2 4 (entry_of id v)
fits id v = record {
  functions_fit = refl;
  bins_fit = refl;
  addresses_fit = refl;
  function_in_range = omega arith;
}

evicting-Placed : Placed addresses 2 4 0 evicting.hash_table
unfolding default_entry is_empty
evicting-Placed = (inl refl, (inl refl, (inl refl, (inr (fits 1 7, refl), tt))))

settle-Settled_example : Returns (settle 5 197 evicting (entry_of 0 3)) λ r.
    Settled addresses 2 4 lengths (omega arith) (omega arith) evicting (entry_of 0 3) r
    × (r.recursive_remappings_counter ≤ 4)
settle-Settled_example =
    settle-Settled addresses 2 4 lengths (omega arith) (omega arith) 5 197 evicting (entry_of 0 3)
      (omega arith) (omega arith) (omega arith) evicting-Placed refl (inr (fits 0 3))

map_elements_to_table-IsMapped_example :
    Returns (map_elements_to_table addresses receiver_table) λ r.
      IsMapped addresses 2 4 lengths (omega arith) (omega arith) receiver_table r
      × (r.recursive_remappings_counter ≤ 3 * 201)
map_elements_to_table-IsMapped_example =
    map_elements_to_table-IsMapped addresses 2 4 lengths (omega arith) (omega arith) 9
      receiver_table receiver_table-IsAllocated (omega arith)

-- The table after the mapping: the third element evicts the first, which evicts the second.
abbrev pub receiver_mapped : CuckooTable
receiver_mapped = record receiver_table {
  mapped = true;
  hash_table =
      record (entry_of 1 7) { current_function_id = 1 }
      ∷ record (entry_of 2 8) { current_function_id = 1 }
      ∷ default_entry 9
      ∷ entry_of 0 3
      ∷ [];
  recursive_remappings_counter = 4;
}

program : Unit {0}
unfolding map_elements_to_table map_from map_element fresh_entry settle exchange
    iterate_function_number get_current_address get_address_at is_empty default_entry resize
program = tt

receiver_run : map_elements_to_table addresses receiver_table ≡ ok receiver_mapped
unfolding program
receiver_run = refl

seven_is_no_dummy : 7 ≢ dummy_element
seven_is_no_dummy = ground arith

map_elements_to_table-Found_example :
    Found addresses 2 4 lengths (omega arith) (omega arith) 1 7 receiver_mapped.hash_table
map_elements_to_table-Found_example =
    map_elements_to_table-Found addresses 2 4 lengths (omega arith) (omega arith) 9 receiver_table
      receiver_mapped 1 7 receiver_table-IsAllocated receiver_run refl seven_is_no_dummy refl

abbrev sender_table : SimpleTable
sender_table = record {
  epsilon = no_epsilon;
  num_bins = 4;
  num_of_hash_functions = 2;
  elements = 8 ∷ 6 ∷ [];
  mapped = false;
  hash_table = [];
  maximum_bin_size = 20;
  pad_to_maximum_bin_size = false;
  max_observed_bin_size = 0;
}

abbrev sender_rows : List (List Block)
sender_rows =
    (make_block 0 8 ∷ [])
    ∷ (make_block 1 8 ∷ [])
    ∷ (make_block 0 6 ∷ [])
    ∷ (make_block 1 6 ∷ [])
    ∷ []

sender_run : as_raw_2d_vector_no_id addresses sender_table ≡ ok (sender_rows, 0)
unfolding as_raw_2d_vector_no_id raw_elements raw_functions Simple.fresh_entry push_at
    get_address_at set_current_address set_possible_addresses
sender_run = refl

abbrev kept_entry : Entry
kept_entry = record (entry_of 2 8) { current_function_id = 1 }

eight_is_no_dummy : 8 ≢ dummy_element
eight_is_no_dummy = ground arith

tables_agree_example :
    Member (make_block 1 8) (get_or sender_rows 1 []) ↔ Member 8 sender_table.elements
tables_agree_example =
    tables_agree addresses 2 4 lengths (omega arith) (omega arith) 9 receiver_table receiver_mapped
      sender_table (sender_rows, 0) receiver_table-IsAllocated receiver_run refl refl sender_run 1
      kept_entry refl eight_is_no_dummy

three_is_no_dummy : 3 ≢ dummy_element
three_is_no_dummy = ground arith

map_elements_to_table-entry_sum_example : entry_sum (λ x. x) receiver_mapped.hash_table ≡ 18
map_elements_to_table-entry_sum_example =
    map_elements_to_table-entry_sum addresses 2 4 lengths (omega arith) (omega arith) 9
      receiver_table receiver_mapped (λ x. x) receiver_table-IsAllocated receiver_run
      (three_is_no_dummy, (seven_is_no_dummy, (eight_is_no_dummy, tt))) refl
