-- ===== src/Circuit.antt =====
-- `run_circuit_psi` of triangle_counting/functionalities.cpp for `PSM1`: the client's and the
-- server's part as one function, from the two vectors of elements to the shares. `MapElements` of
-- the base class of the tables, the pseudorandom function (`ot_receiver`, `ot_sender`) and the
-- generator `PRNG` come from libraries and are parameters. Vectors that the source reserves and
-- then writes through their indices are arrays.
pub mod Places
pub mod Hint
pub mod Words
pub mod Answer
pub mod Keys
pub mod Whole
pub mod Table
pub mod Nonces
pub mod Opened
pub mod Compared
pub mod Hidden
pub mod Sizes
use sectric.Common.{
  ℕ, zero, suc, ◌+◌, ◌*◌, ◌%◌, List, [], ◌∷◌, ◌++◌, Bool, if◌then◌else◌, get_or, bit_xor,
}
use sectric.Common.Run.{Run, ok, fault, ◌>>=◌, out_of_range}
use sectric.Common.Loops.{for_each, update}
use sectric.Common.Fill.{fill1, fill2}
use sectric.Block.Sse.{Block}
use sectric.Hashing.Entry.{Entry, is_empty}
use sectric.Hashing.Cuckoo
use sectric.Hashing.Cuckoo.{CuckooTable, as_raw_vector}
use sectric.Hashing.Cuckoo.Addresses.{get_element_addresses}
use sectric.Hashing.Simple
use sectric.Hashing.Simple.{SimpleTable, as_raw_2d_vector}
use sectric.Equality.Traverse.{Packing}
use sectric.Equality.Batch
use sectric.Equality.Batch.{Transfer}
use sectric.Equality.Batch.Perform.{BatchSupply, perform_batch_equality}

pub record PsiContext : Type 0 where
  pub nbins : ℕ
  pub fbins : ℕ
  pub nfuns : ℕ
  pub ffuns : ℕ
  pub bitlen : ℕ
  pub radix : ℕ

-- `S_CONST` and `C_CONST`
abbrev pub s_const : ℕ
s_const = 18286333650295995643

abbrev pub c_const : ℕ
c_const = 8459320670953116686

unfoldable pub num_cmps : ℕ → ℕ
num_cmps nbins = nbins + nbins % 8

-- `hashlocmap`: the bin of a key and its place in the bin's row.
pub record HashLocMap : Type 0 where
  pub bin : ℕ
  pub index : ℕ

-- The loop over row `i`, from place `j` on: `tloc[key].bin = i; tloc[key].index = j`.
unfoldable pub record_row : ℕ → ℕ → List ℕ → (ℕ → HashLocMap) → ℕ → HashLocMap
record_row i j [] tloc = tloc
record_row i j (key ∷ row) tloc =
    record_row i (suc j) row (update tloc key (record { bin = i; index = j }))

-- `tloc`, from row `i` on; a key that is not there reads as zeros.
unfoldable pub record_rows : ℕ → List (List ℕ) → (ℕ → HashLocMap) → ℕ → HashLocMap
record_rows i [] tloc = tloc
record_rows i (row ∷ rows) tloc = record_rows (suc i) rows (record_row i 0 row tloc)

abbrev pub no_places : ℕ → HashLocMap
no_places key = record { bin = 0; index = 0 }

-- `filterinputs`
unfoldable pub filter_inputs : List (List ℕ) → List ℕ
filter_inputs [] = []
filter_inputs (row ∷ rows) = row ++ filter_inputs rows

module _ (prng : Block → ℕ → ℕ) where
  -- The loop `for (j = 0; j <= function_id; j++) pad = prng.get<uint64_t>()`.
  unfoldable pub last_pad : Block → ℕ → ℕ
  last_pad seed function_id = for_each (function_id + 1) (λ j pad. prng seed j) 0

  -- A full cell of `garbled_cuckoo_filter`.
  unfoldable pub garbled_cell : (ℕ → ℕ) → (ℕ → ℕ → Block) → (ℕ → HashLocMap) → Entry → ℕ
  garbled_cell content_of_bins masks tloc e =
      let hlm = tloc e.value in
      bit_xor (content_of_bins hlm.bin) (last_pad (masks hlm.bin hlm.index) e.current_function_id)

  -- The loop over the hint table; an empty cell gets the next random value.
  unfoldable pub garble :
      (ℕ → ℕ) → (ℕ → ℕ → Block) → (ℕ → HashLocMap) → ℕ → List Entry → (ℕ → ℕ) → Run (List ℕ)
  garble content_of_bins masks tloc zero es dummies = ok []
  garble content_of_bins masks tloc (suc left) [] dummies = fault out_of_range
  garble content_of_bins masks tloc (suc left) (e ∷ es) dummies = do
    rest ←
        garble content_of_bins masks tloc left es
          (λ n. if is_empty e then dummies (suc n) else dummies n)
    ok ((if is_empty e then dummies 0 else garbled_cell content_of_bins masks tloc e) ∷ rest)

  -- The client's `content_of_bins`: what the filter hides at the addresses of each bin.
  unfoldable pub opened_values : ℕ → ℕ → (ℕ → ℕ) → (ℕ → ℕ) → (ℕ → Block) → (ℕ → ℕ) → ℕ → ℕ
  opened_values nbins ffuns garbled_cuckoo_filter addresses masks_with_dummies memory =
      fill2 nbins ffuns (λ i j. i * ffuns + j)
        (λ i j.
          bit_xor (garbled_cuckoo_filter (addresses (i * ffuns + j)))
            (prng (masks_with_dummies i) j))
        memory

-- The padding of the client, who has three words for each comparison, and of the server.
unfoldable pub pad_client : ℕ → (ℕ → ℕ) → ℕ → ℕ
pad_client nbins content_of_bins =
    fill1 (3 * (nbins % 8)) (λ i. 3 * nbins + i) (λ i. c_const) content_of_bins

unfoldable pub pad_server : ℕ → (ℕ → ℕ) → ℕ → ℕ
pad_server nbins content_of_bins = fill1 (nbins % 8) (λ i. nbins + i) (λ i. s_const) content_of_bins

-- What one run draws or gets from outside.
pub record CircuitDraws : Type 0 where
  pub contents : ℕ → ℕ
  pub dummies : ℕ → ℕ
  pub addresses_memory : ℕ → ℕ
  pub contents_memory : ℕ → ℕ
  pub supply : BatchSupply

module _ (prng : Block → ℕ → ℕ) (ot_receiver : List ℕ → ℕ → Block)
    (ot_sender : List (List ℕ) → ℕ → ℕ → Block) (hash_to_position : ℕ → ℕ → List ℕ)
    (map_elements : CuckooTable → Run CuckooTable) (map_rows : SimpleTable → Run SimpleTable)
    (p : Packing) (ot : Transfer) where
  -- Both parties after the tables: the client's vector and the server's rows.
  unfoldable pub after_tables :
      PsiContext → CircuitDraws → List ℕ → List (List ℕ) → Run ((ℕ → Bool) × (ℕ → Bool))
  after_tables context draws cuckoo_table_v simple_table_v = do
    hint ←
        map_elements (
          Cuckoo.insert_all (Cuckoo.new context.fbins context.ffuns) (filter_inputs simple_table_v))
    filter ←
        garble prng draws.contents (ot_sender simple_table_v)
          (record_rows 0 simple_table_v no_places) context.fbins hint.hash_table draws.dummies
    addresses ←
        get_element_addresses hash_to_position
          (Cuckoo.insert_all (Cuckoo.new context.fbins context.ffuns) cuckoo_table_v)
          draws.addresses_memory
    let values =
        opened_values prng context.nbins context.ffuns (λ a. get_or filter a 0) addresses
          (ot_receiver cuckoo_table_v) draws.contents_memory
    c ← Batch.new context.bitlen context.radix 3 (num_cmps context.nbins)
    perform_batch_equality c p ot draws.supply (pad_client context.nbins values)
        (pad_server context.nbins draws.contents)

  unfoldable pub run_circuit_psi :
      PsiContext → CircuitDraws → List ℕ → List ℕ → Run ((ℕ → Bool) × (ℕ → Bool))
  run_circuit_psi context draws client_inputs server_inputs = do
    cuckoo ← map_elements (Cuckoo.insert_all (Cuckoo.new context.nbins context.nfuns) client_inputs)
    cuckoo_table_v ← as_raw_vector cuckoo
    simple ← map_rows (Simple.insert_all (Simple.new context.nbins context.nfuns) server_inputs)
    simple_table_v ← as_raw_2d_vector simple
    after_tables context draws cuckoo_table_v simple_table_v
