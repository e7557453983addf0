-- ===== src/Hashing/Simple.antt =====
-- `SimpleTable` of triangle_counting/simple_hashing.cpp: the table and its operations.
pub mod Bins
pub mod Rows
use sectric.Common.{
  ℕ, zero, suc, ◌+◌, ◌-◌, ◌*◌, ◌^◌, Bool, true, false, ◌==◌, ◌&&◌, List, [], ◌∷◌, ◌++◌, length, set,
  replicate, map, if◌then◌else◌, bit_xor, ltb,
}
use sectric.Common.Run.{
  Run, ok, fault, ◌>>=◌, at, out_of_range, assertion, no_size, negative_epsilon,
}
use sectric.Hashing.Entry.{
  Entry, dummy_element, set_current_address, set_possible_addresses, get_address_at,
}
use sectric.Hashing.Cuckoo.{Epsilon, no_epsilon}
use sectric.Block.Sse.{Block, make_block}

pub record SimpleTable : Type 0 where
  pub epsilon : Epsilon
  pub num_bins : ℕ
  pub num_of_hash_functions : ℕ
  pub elements : List ℕ
  pub mapped : Bool
  pub hash_table : List (List Entry)
  pub maximum_bin_size : ℕ
  pub pad_to_maximum_bin_size : Bool
  pub max_observed_bin_size : ℕ

-- `SimpleTable(num_of_bins)` and `SetNumOfHashFunctions`
unfoldable pub new : ℕ → ℕ → SimpleTable
new num_of_bins functions = record {
  epsilon = no_epsilon;
  num_bins = num_of_bins;
  num_of_hash_functions = functions;
  elements = [];
  mapped = false;
  hash_table = [];
  maximum_bin_size = 20;
  pad_to_maximum_bin_size = false;
  max_observed_bin_size = 0;
}

unfoldable pub insert : SimpleTable → ℕ → SimpleTable
insert t element = record t { elements = t.elements ++ element ∷ [] }

unfoldable pub insert_all : SimpleTable → List ℕ → SimpleTable
insert_all t new_elements = record t { elements = t.elements ++ new_elements }

unfoldable pub set_maximum_bin_size : SimpleTable → ℕ → SimpleTable
set_maximum_bin_size t size = record t { maximum_bin_size = size; pad_to_maximum_bin_size = true }

-- `hash_table_.resize(num_bins_)`: the bins beyond the new size go, new ones are empty.
unfoldable pub resize : ℕ → List (List Entry) → List (List Entry)
resize zero bs = []
resize (suc n) [] = [] ∷ resize n []
resize (suc n) (b ∷ bs) = b ∷ resize n bs

abbrev sized : SimpleTable → Run SimpleTable
sized t =
    if t.num_bins == 0
    then fault assertion
    else ok (record t { hash_table = resize t.num_bins t.hash_table })

unfoldable pub allocate_table : SimpleTable → Run SimpleTable
allocate_table t =
    if t.num_bins == 0 && t.epsilon.is_zero
    then fault no_size
    else if t.epsilon.is_negative
    then fault negative_epsilon
    else sized (
        if t.epsilon.is_positive
        then record t { num_bins = t.epsilon.ceil_product (length t.elements) }
        else t)

-- `table.at(a).push_back(x)`
unfoldable pub push_at {ℓ} : {A : Type ℓ} → List (List A) → ℕ → A → Run (List (List A))
push_at table a x = do b ← at table a; ok (set table a (b ++ x ∷ []))

abbrev larger : ℕ → ℕ → ℕ
larger size observed = if ltb observed size then size else observed

module _ (hash_to_position : ℕ → ℕ → List ℕ) where
  -- The entry of an element with its addresses set.
  unfoldable pub fresh_entry : SimpleTable → ℕ → ℕ → Entry
  unfolding set_possible_addresses
  fresh_entry t id element =
      let e : Entry = record {
        num_of_hash_functions = t.num_of_hash_functions;
        num_of_bins = t.num_bins;
        global_id = id;
        value = element;
        current_function_id = 0;
        possible_addresses = [];
      } in
      set_possible_addresses e (hash_to_position t.num_of_hash_functions element)

  -- The loop over the functions at function `i`, with `left` of them to go.
  unfoldable pub map_functions : ℕ → ℕ → Entry → SimpleTable → Run SimpleTable
  map_functions zero i e t = ok t
  map_functions (suc left) i e t = do
    let entry_copy = set_current_address e i
    a ← get_address_at entry_copy i
    table ← push_at t.hash_table a entry_copy
    a' ← get_address_at entry_copy i
    b ← at table a'
    map_functions left (suc i) e (record t {
      hash_table = table;
      max_observed_bin_size = larger (length b) t.max_observed_bin_size;
    })

  unfoldable pub map_from : ℕ → List ℕ → SimpleTable → Run SimpleTable
  map_from id [] t = ok t
  map_from id (x ∷ xs) t = do
    t' ← map_functions t.num_of_hash_functions 0 (fresh_entry t id x) t
    map_from (suc id) xs t'

  unfoldable pub map_unmapped : Bool → SimpleTable → Run SimpleTable
  map_unmapped true t = fault assertion
  map_unmapped false t = do t' ← map_from 0 t.elements t; ok (record t' { mapped = true })

  unfoldable pub map_elements_to_table : SimpleTable → Run SimpleTable
  unfolding map_unmapped
  map_elements_to_table t = map_unmapped t.mapped t

  unfoldable pub raw_functions : ℕ → ℕ → Entry → List (List Block) → Run (List (List Block))
  raw_functions zero i e raw = ok raw
  raw_functions (suc left) i e raw = do
    let entry_copy = set_current_address e i
    a ← get_address_at entry_copy i
    raw' ← push_at raw a (make_block entry_copy.current_function_id entry_copy.value)
    raw_functions left (suc i) e raw'

  unfoldable pub raw_elements :
      SimpleTable → ℕ → List ℕ → List (List Block) → Run (List (List Block))
  raw_elements t id [] raw = ok raw
  raw_elements t id (x ∷ xs) raw = do
    raw' ← raw_functions t.num_of_hash_functions 0 (fresh_entry t id x) raw
    raw_elements t (suc id) xs raw'

  -- `AsRaw2DVectorNoID`: `max_columns` is set to 0 and never written again.
  unfoldable pub as_raw_2d_vector_no_id : SimpleTable → Run (List (List Block) × ℕ)
  as_raw_2d_vector_no_id t = do
    raw ← raw_elements t 0 t.elements (replicate t.num_bins [])
    ok (raw, 0)

-- The loops over the bins read `hash_table_.at(i)` for `i` from 0 to `num_bins_`; they are walks
-- along the vector with the number of bins that are left, and throw where the vector ends first.
unfoldable pub rows_from {ℓ} :
    {A : Type ℓ} → (Entry → A) → ℕ → List (List Entry) → Run (List (List A))
rows_from f zero bs = ok []
rows_from f (suc left) [] = fault out_of_range
rows_from f (suc left) (b ∷ bs) = do rest ← rows_from f left bs; ok (map f b ∷ rest)

abbrev concat {ℓ} : {A : Type ℓ} → List (List A) → List A
concat [] = []
concat (b ∷ bs) = b ++ concat bs

abbrev pub masked : Entry → ℕ
masked e = bit_xor e.value e.current_function_id

-- `AsRaw2DVector`, `AsRawVector` and `AsRawVectorNoID`
unfoldable pub as_raw_2d_vector : SimpleTable → Run (List (List ℕ))
unfolding rows_from
as_raw_2d_vector t = rows_from masked t.num_bins t.hash_table

unfoldable pub as_raw_vector : SimpleTable → Run (List ℕ)
unfolding rows_from
as_raw_vector t = do rows ← rows_from masked t.num_bins t.hash_table; ok (concat rows)

unfoldable pub as_raw_vector_no_id : SimpleTable → Run (List Block)
unfolding rows_from
as_raw_vector_no_id t = do
  rows ← rows_from (λ e. make_block e.current_function_id e.value) t.num_bins t.hash_table
  ok (concat rows)

unfoldable pub get_num_of_elements_in_bins : SimpleTable → List ℕ
get_num_of_elements_in_bins t = map (λ b. length b) t.hash_table

-- One row of `AsRawVectorPadded`: `raw_table.at(i * maximum_bin_size_ + j)`, from place `k` on.
unfoldable pub write_row : ℕ → List Entry → List ℕ → Run (List ℕ)
write_row k [] raw = ok raw
write_row k (e ∷ es) raw = do _ ← at raw k; write_row (suc k) es (set raw k e.value)

unfoldable pub write_rows : ℕ → ℕ → ℕ → List (List Entry) → List ℕ → Run (List ℕ)
write_rows size zero i bs raw = ok raw
write_rows size (suc left) i [] raw = fault out_of_range
write_rows size (suc left) i (b ∷ bs) raw = do
  raw' ← write_row (i * size) b raw
  write_rows size left (suc i) bs raw'

unfoldable pub as_raw_vector_padded : SimpleTable → Run (List ℕ)
unfolding write_rows write_row
as_raw_vector_padded t =
    write_rows t.maximum_bin_size t.num_bins 0 t.hash_table
      (replicate (t.maximum_bin_size * t.num_bins) dummy_element)
