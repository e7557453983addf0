-- ===== src/Circuit/Table.antt =====
-- `run_circuit_psi` of triangle_counting/functionalities.cpp for `PSM2`: the client hides one word
-- for each bin under the masks of its three opened values, and the server opens it with the mask
-- of its own. `hashToPosition` of the library is the parameter `hash`; what is read beyond a row
-- of masks is `beyond`.
use sectric.Common.{
  ℕ, zero, suc, ◌+◌, ◌*◌, ◌%◌, Bool, ◌==◌, ltb, if◌then◌else◌, List, [], ◌∷◌, get_or, Option, none,
  some, bit_and, bit_xor,
}
use sectric.Common.Run.{Run, ok, fault, ◌>>=◌, out_of_fuel}
use sectric.Common.Loops.{update}
use sectric.Common.Fill.{fill1}
use sectric.Block.Sse.{Block, zero_block}
use sectric.Hashing.Cuckoo
use sectric.Hashing.Cuckoo.{CuckooTable}
use sectric.Hashing.Cuckoo.Addresses.{get_element_addresses}
use sectric.Equality.Leaf.{Transfer}
use sectric.Equality.Traverse.{Packing}
use sectric.Equality.Compare.{Supply}
use sectric.Equality.Threads.{perform_equality}
use sectric.Circuit.{
  PsiContext, num_cmps, s_const, c_const, no_places, record_rows, filter_inputs, garble,
  opened_values,
}

abbrev pub ts : ℕ
ts = 4

-- The loop over the masks from `j` on, up to its `break`: where each mask goes.
unfoldable pub place_masks : (ℕ → ℕ) → ℕ → ℕ → (ℕ → ℕ) → Option (ℕ → ℕ)
place_masks bitaddress zero j bitindex = some bitindex
place_masks bitaddress (suc left) j bitindex =
    let rest = place_masks bitaddress left (suc j) (update bitindex (bitaddress j) j) in
    if bitindex (bitaddress j) == ts then rest else none

-- The loop `while (!uniqueMap)` on the nonces that the generator gives: the first one that sends
-- the masks to different places, these places, and the nonces that are left.
unfoldable pub find_nonce : (Block → ℕ → ℕ) → ℕ → List Block → Option (Block × (ℕ → ℕ) × List Block)
find_nonce bitaddress ffuns [] = none
find_nonce bitaddress ffuns (nonce ∷ nonces) =
    elim (place_masks (bitaddress nonce) ffuns 0 (λ a. ts)) [
      | some bitindex ↦ some (nonce, bitindex, nonces)
      | none ↦ find_nonce bitaddress ffuns nonces
    ]

-- The mask that a cell takes; `bitindex[j]` is `ts` where no mask goes.
abbrev pub cell_mask : ℕ → (ℕ → ℕ → Block) → (ℕ → ℕ) → ℕ → ℕ → ℕ
cell_mask ffuns table_masks beyond i k = if ltb k ffuns then (table_masks i k).low else beyond i

module _ (hash : ℕ → Block → ℕ) where
  -- `hashToPosition(mask, nonce) & mask_ad`
  abbrev pub bit_address : Block → Block → ℕ
  bit_address mask nonce = bit_and (hash mask.low nonce) 3

  -- `padding_vals` and `table_opprf` from bin `i` on.
  unfoldable pub build_table :
      ℕ
      → (ℕ → ℕ → Block)
      → (ℕ → ℕ)
      → (ℕ → ℕ)
      → ℕ
      → ℕ
      → List Block
      → (ℕ → ℕ)
      → Run (List Block × (ℕ → ℕ))
  build_table ffuns table_masks beyond contents zero i nonces table = ok ([], table)
  build_table ffuns table_masks beyond contents (suc left) i nonces table =
      elim (find_nonce (λ nonce j. bit_address (table_masks i j) nonce) ffuns nonces) [
        | none ↦ fault out_of_fuel
        | some (nonce, bitindex, later) ↦ do
          r ← build_table ffuns table_masks beyond contents left (suc i) later (
              fill1 ts (λ j. i * ts + j)
                (λ j. bit_xor (cell_mask ffuns table_masks beyond i (bitindex j)) (contents i))
                table)
          ok (nonce ∷ r.0, r.1)
      ]

  -- The server's `actual_contents_of_bins`.
  unfoldable pub actual_contents : ℕ → (ℕ → Block) → List Block → (ℕ → ℕ) → (ℕ → ℕ) → ℕ → ℕ
  actual_contents nbins masks_with_dummies padding_vals table_opprf memory =
      fill1 nbins (λ i. i)
        (λ i.
          let mask = masks_with_dummies i in
          bit_xor mask.low
            (table_opprf (ts * i + bit_address mask (get_or padding_vals i zero_block))))
        memory

-- The padding behind the bins; the client's loop writes three times as many words.
unfoldable pub pad_words : ℕ → ℕ → ℕ → (ℕ → ℕ) → ℕ → ℕ
pad_words nbins pad value content = fill1 pad (λ i. nbins + i) (λ i. value) content

-- A vector of so many values.
unfoldable pub tabulate {ℓ} : {A : Type ℓ} → ℕ → (ℕ → A) → List A
tabulate zero f = []
tabulate (suc n) f = f 0 ∷ tabulate n (λ i. f (suc i))

-- `opprf_values`
abbrev pub opprf_rows : ℕ → ℕ → (ℕ → ℕ) → List (List ℕ)
opprf_rows nbins ffuns values = tabulate nbins (λ i. tabulate ffuns (λ j. values (i * ffuns + j)))

-- What one run draws or gets from outside.
pub record TableDraws : Type 0 where
  pub server_contents : ℕ → ℕ
  pub client_contents : ℕ → ℕ
  pub dummies : ℕ → ℕ
  pub nonces : List Block
  pub beyond : ℕ → ℕ
  pub addresses_memory : ℕ → ℕ
  pub contents_memory : ℕ → ℕ
  pub table_memory : ℕ → ℕ
  pub shares_memory : ℕ → Bool
  pub supply_0 : Supply
  pub supply_1 : Supply

module _ (ot_receiver : List ℕ → ℕ → Block) (ot_sender : List (List ℕ) → ℕ → ℕ → Block)
    (hash : ℕ → Block → ℕ) (p : Packing) (ot : Transfer) where
  -- Both parties from the client's opened values on.
  unfoldable pub compare_words : PsiContext → TableDraws → (ℕ → ℕ) → Run ((ℕ → Bool) × (ℕ → Bool))
  compare_words context draws values = do
    let masks = ot_sender (opprf_rows context.nbins context.ffuns values)
    r ←
        build_table hash context.ffuns masks draws.beyond draws.client_contents context.nbins 0
          draws.nonces draws.table_memory
    let actual =
        actual_contents hash context.nbins
          (ot_receiver (tabulate context.nbins draws.server_contents)) r.0 r.1 draws.contents_memory
    perform_equality p ot draws.supply_0 draws.supply_1
        (pad_words context.nbins (3 * (context.nbins % 8)) c_const draws.client_contents)
        (pad_words context.nbins (context.nbins % 8) s_const actual) context.bitlen context.radix
        (num_cmps context.nbins) draws.shares_memory

  module _ (prng : Block → ℕ → ℕ) (hash_to_position : ℕ → ℕ → List ℕ)
      (map_elements : CuckooTable → Run CuckooTable) where
    -- Both parties after the tables: the client's vector and the server's rows.
    unfoldable pub after_tables_psm2 :
        PsiContext → TableDraws → List ℕ → List (List ℕ) → Run ((ℕ → Bool) × (ℕ → Bool))
    after_tables_psm2 context draws cuckoo_table_v simple_table_v = do
      hint ← map_elements (
          Cuckoo.insert_all (Cuckoo.new context.fbins context.ffuns) (filter_inputs simple_table_v))
      filter ←
          garble prng draws.server_contents (ot_sender simple_table_v)
            (record_rows 0 simple_table_v no_places) context.fbins hint.hash_table draws.dummies
      addresses ←
          get_element_addresses hash_to_position
            (Cuckoo.insert_all (Cuckoo.new context.fbins context.ffuns) cuckoo_table_v)
            draws.addresses_memory
      compare_words context draws (
          opened_values prng context.nbins context.ffuns (λ a. get_or filter a 0) addresses
            (ot_receiver cuckoo_table_v) draws.contents_memory)
