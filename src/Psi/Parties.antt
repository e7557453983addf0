-- ===== src/Psi/Parties.antt =====
-- `psi_ca_receiver` and `psi_ca_sender` of triangle_counting/circuit_psi.cpp as a whole: from the
-- two sets to the receiver's answer. `MapElements` of the base class of the tables, the key-value
-- stores, the transfers and all random values are parameters.
use sectric.Common.{
  ℕ, zero, suc, ◌+◌, ◌-◌, ◌/◌, ◌%◌, ◌^◌, true, ◌==◌, if◌then◌else◌, List, [], ◌∷◌, ◌++◌, length,
  map, bit_xor,
}
use sectric.Common.Run.{Run, ◌>>=◌}
use sectric.Common.Loops.{update}
use sectric.Block.Sse.{Block, zero_block}
use sectric.Hashing.Cuckoo.{CuckooTable, as_raw_vector_no_id}
use sectric.Hashing.Cuckoo
use sectric.Hashing.Simple.{SimpleTable, as_raw_2d_vector_no_id}
use sectric.Hashing.Simple
use sectric.Equality.Leaf.{Transfer}
use sectric.Equality.Traverse.{Packing, Triples}
use sectric.Equality.Compare.{Supply}
use sectric.Oprf.{xor_block, client1, server1, evaluate1}
use sectric.Psi.{front, advance, BlockTransfer, psi_ca}

-- `low ^ high` of an edge.
unfoldable pub element_of : Block → ℕ
element_of edge = bit_xor edge.low edge.high

-- `nbins`, from the truncated product that is `bin_num`.
unfoldable pub padded_bins : ℕ → ℕ
padded_bins bin_num = bin_num + (if bin_num % 8 == 0 then 0 else 8 - bin_num % 8)

-- The receiver's `vec`: the elements of its set, and random ones up to `capacity`, which is
-- `MAX_DEGREE*MAX_DEGREE`; the number of these is a difference of 64 bits.
unfoldable pub random_elements : ℕ → (ℕ → ℕ) → List ℕ
random_elements zero rands = []
random_elements (suc n) rands = rands 0 ∷ random_elements n (λ i. rands (suc i))

unfoldable pub receiver_elements : ℕ → (ℕ → ℕ) → List Block → List ℕ
receiver_elements capacity rands set =
    map element_of set ++ random_elements ((capacity + 2 ^ 64 - length set) % 2 ^ 64) rands

-- The sender's `vec`: `real_num2` edges are read, beyond the end of the set what the memory holds.
unfoldable pub sender_elements : Block → ℕ → List Block → List ℕ
sender_elements past zero set = []
sender_elements past (suc n) set =
    element_of (front past set) ∷ sender_elements past n (advance true set)

-- `simple_table_1d`
unfoldable pub one_dimension : List (List Block) → List Block
one_dimension [] = []
one_dimension (row ∷ rows) = row ++ one_dimension rows

-- The loop over a row: each block of the row masks the next value; what is left of the values.
unfoldable pub mask_row : Block → List Block → List Block → List Block × List Block
mask_row random [] values = ([], values)
mask_row random (k ∷ row) [] = ([], [])
mask_row random (k ∷ row) (v ∷ values) =
    let rest = mask_row random row values in (xor_block random v ∷ rest.0, rest.1)

-- The loop over the rows from row `i` on, which changes `oprf_result` in place.
unfoldable pub mask_rows : (ℕ → Block) → ℕ → List (List Block) → List Block → List Block
mask_rows random_values i [] values = values
mask_rows random_values i (row ∷ rows) values =
    let done = mask_row (random_values i) row values in
    done.0 ++ mask_rows random_values (suc i) rows done.1

-- `decode_result[i] ^= result[i]`
unfoldable pub unmask_results : Block → List Block → List Block → List Block
unmask_results past [] results = []
unmask_results past (d ∷ decoded) results =
    xor_block d (front past results) ∷ unmask_results past decoded (advance true results)

-- `eq_blocks[idxs[i]] = decode_result[i]`; the two vectors have the same length.
unfoldable pub place_blocks : List ℕ → List Block → (ℕ → Block) → ℕ → Block
place_blocks [] decoded eq_blocks = eq_blocks
place_blocks (x ∷ idxs) decoded eq_blocks =
    place_blocks idxs (advance true decoded) (update eq_blocks x (front zero_block decoded))

-- What one run draws or gets from outside, and what it reads beyond the ends of vectors.
pub record Draws : Type 0 where
  pub seed_r : Block
  pub delta : Block
  pub part_a : ℕ → Block
  pub part_b : ℕ → Block
  pub part_c : ℕ → Block
  pub random_values : ℕ → Block
  pub ot_r : ℕ → Block
  pub supply_0 : Supply
  pub supply_1 : Supply
  pub triples_a : Triples
  pub triples_b : Triples
  pub stale : ℕ → ℕ
  pub past : ℕ
  pub past_block : Block

module _ {Seed : Type 0} (set_seed : Block → Seed)
    (solve : Seed → List Block → List Block → ℕ → Block)
    (decode : Seed → (ℕ → Block) → Block → Block) (mul : Block → Block → Block)
    (encode : List Block → List Block → ℕ → Block) (lookup : (ℕ → Block) → Block → Block)
    (p : Packing) (ot : Transfer) (transfer : BlockTransfer) (hash_to_position : ℕ → ℕ → List ℕ)
    (map_elements : CuckooTable → Run CuckooTable) where
  -- Both parties after the tables: the receiver's occupied bins and their blocks, and the sender's
  -- rows. `size` is the length of the first store, `item_num` the number of its inputs.
  unfoldable pub after_tables :
      Draws → ℕ → ℕ → ℕ → List ℕ → List ℕ → List Block → List (List Block) → Run Block
  after_tables draws size item_num nbins vec idxs ck rows =
      let keys = one_dimension rows in
      let request =
        client1 set_seed solve decode mul ck item_num size draws.seed_r draws.part_a draws.part_c in
      let oprf_key = server1 set_seed solve decode mul size draws.delta draws.part_b request.0 in
      do
        oprf_result ← evaluate1 set_seed solve decode mul draws.seed_r oprf_key keys (length keys)
        result ← request.1
        let okvs = encode keys (mask_rows draws.random_values 0 rows oprf_result)
        let decoded = unmask_results draws.past_block (map (lookup okvs) ck) result
        psi_ca p ot transfer draws.supply_0 draws.supply_1 draws.triples_a draws.triples_b
            draws.stale vec draws.past draws.ot_r nbins idxs ck
            (place_blocks idxs decoded (λ i. zero_block)) draws.random_values

  unfoldable pub parties : Draws → ℕ → ℕ → ℕ → ℕ → List ℕ → List ℕ → Run Block
  parties draws size item_num nbins functions receiver_vec sender_vec = do
    table ← map_elements (Cuckoo.insert_all (Cuckoo.new nbins functions) receiver_vec)
    occupied ← as_raw_vector_no_id table
    rows ←
        as_raw_2d_vector_no_id hash_to_position
          (Simple.insert_all (Simple.new nbins functions) sender_vec)
    after_tables draws size item_num nbins receiver_vec occupied.0 occupied.1 rows.0

-- `((uint64_t *)(&block_ans))[0]/2`, which the receiver prints.
unfoldable pub printed : Block → ℕ
printed block_ans = block_ans.low / 2
