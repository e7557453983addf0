-- ===== src/Tests/Intersection.antt =====
-- Both parties of triangle_counting/circuit_psi.cpp on concrete sets.
use sectric.Common.{
  ℕ, suc, ◌+◌, ◌/◌, ◌%◌, ◌<◌, ◌≤◌, ◌≡◌, ◌≢◌, refl, true, inl, inr, List, [], ◌∷◌, length, arith,
}
use sectric.Common.Run.{Run, ok, ◌>>=◌, Returns}
use sectric.Block.Sse.{Block, make_block, zero_block}
use sectric.Block.Arith.{value}
use sectric.Hashing.Entry.{
  Entry, dummy_element, default_entry, is_empty, iterate_function_number, get_current_address,
  get_address_at, set_current_address, set_possible_addresses,
}
use sectric.Hashing.Cuckoo
use sectric.Hashing.Cuckoo.{
  CuckooTable, allocate_table, map_elements_to_table, map_from, map_element, fresh_entry, settle,
  exchange, resize,
}
use sectric.Hashing.Simple
use sectric.Hashing.Simple.{as_raw_2d_vector_no_id, raw_elements, raw_functions, push_at}
use sectric.Equality.Blocks.{block_equal}
use sectric.Common.Loops.{update}
use sectric.Graph.{read, write, write_blocks, read_blocks}
use sectric.Oprf.{
  xor_block, client1, server1, combine_in_place, by_eight, eight, one_by_one, block_to_byte,
  byte_to_block,
}
use sectric.Psi.{selected}
use sectric.Psi.Parties.{Draws, parties, printed, one_dimension, padded_bins}
use sectric.Psi.Cells.{occupied_blocks}
use sectric.Psi.Rows.{Distinct}
use sectric.Psi.Shared.{shared_count}
use sectric.Psi.Intersection.{NoCollision}
use sectric.Psi.Contracts.{AreDrawn}
use sectric.Psi.Answer.{parties_lem}
use sectric.Psi.Sizes.{padded_bins_lem}
use sectric.Tests.Tables.{addresses}
use sectric.Tests.Shares.{packing, chosen, supply, alice_triples, bob_triples, triples}
use sectric.Tests.Oprf.{
  low_product, three_places, three_places-IsLinear, first_part, second_part, delta, correlation,
  parts,
}
use sectric.Tests.Store.{encode, lookup, list-IsStore}

-- The receiver's elements 3 and 11 belong to one bin of eight; the sender has 11 and 6.
abbrev receiver_vec : List ℕ
receiver_vec = 3 ∷ 11 ∷ []

abbrev sender_vec : List ℕ
sender_vec = 11 ∷ 6 ∷ []

abbrev entry_at : ℕ → ℕ → ℕ → Entry
entry_at id v f = record {
  num_of_hash_functions = 2;
  num_of_bins = 8;
  global_id = id;
  value = v;
  current_function_id = f;
  possible_addresses = addresses 2 v;
}

unfoldable map_all : CuckooTable → Run CuckooTable
map_all t = allocate_table 9 t >>= map_elements_to_table addresses

abbrev table : CuckooTable
table = record (Cuckoo.insert_all (Cuckoo.new 8 2) receiver_vec) {
  mapped = true;
  hash_table =
      default_entry 9
      ∷ default_entry 9
      ∷ default_entry 9
      ∷ entry_at 1 11 0
      ∷ entry_at 0 3 1
      ∷ default_entry 9
      ∷ default_entry 9
      ∷ default_entry 9
      ∷ [];
  recursive_remappings_counter = 1;
}

table_run : map_all (Cuckoo.insert_all (Cuckoo.new 8 2) receiver_vec) ≡ ok table
unfolding map_all allocate_table map_elements_to_table map_from map_element fresh_entry settle
    exchange iterate_function_number get_current_address get_address_at is_empty default_entry
    resize Cuckoo.new Cuckoo.insert_all
table_run = refl

abbrev rows : List (List Block)
rows =
    []
    ∷ []
    ∷ []
    ∷ (make_block 0 11 ∷ [])
    ∷ (make_block 1 11 ∷ [])
    ∷ []
    ∷ (make_block 0 6 ∷ [])
    ∷ (make_block 1 6 ∷ [])
    ∷ []

rows_run :
    as_raw_2d_vector_no_id addresses (Simple.insert_all (Simple.new 8 2) sender_vec) ≡ ok (rows, 0)
unfolding as_raw_2d_vector_no_id raw_elements raw_functions Simple.fresh_entry push_at
    get_address_at set_current_address set_possible_addresses Simple.new Simple.insert_all
rows_run = refl

abbrev zeros_solution : Block → List Block → List Block → ℕ → Block
zeros_solution seed keys values j = zero_block

abbrev draws : Draws
draws = record {
  seed_r = make_block 8 8;
  delta = delta;
  part_a = first_part;
  part_b = second_part;
  part_c = correlation;
  random_values = λ i. make_block 9 9;
  ot_r = λ i. make_block i 1;
  supply_0 = supply;
  supply_1 = supply;
  triples_a = alice_triples;
  triples_b = bob_triples;
  stale = λ i. 77;
  past = 100;
  past_block = make_block 6 6;
}

draws-AreDrawn : AreDrawn 3 8 low_product draws
draws-AreDrawn = record {
  correlation = parts;
  values-IsBlock = λ i h. (omega arith, omega arith);
  messages-IsBlock = λ i h. (omega (arith, h), omega arith);
  triples_0 = triples;
  triples_1 = triples;
  triples = triples;
  unread = omega arith;
}

abbrev lengths : (v : ℕ) → length (addresses 2 v) ≡ 2
lengths v = refl

three_is_no_dummy : 3 ≢ dummy_element
three_is_no_dummy = ground arith

eleven_is_no_dummy : 11 ≢ dummy_element
eleven_is_no_dummy = ground arith

sender-Distinct : Distinct sender_vec
sender-Distinct = (λ m. elim m [ inl e ↦ absurd (omega (arith, e)) | inr n ↦ n ], (λ m. m, tt))

abbrev some_bits : (t : ℕ) → 0 < suc t
some_bits t = omega arith

abbrev MissesEveryBin : Type 0
MissesEveryBin =
    NoCollision (λ b. b) zeros_solution three_places low_product encode lookup addresses 2 8 lengths
      (some_bits 7) (some_bits 1) 3 4 three_places-IsLinear (λ s keys n k d m. refl) list-IsStore
      draws draws-AreDrawn table.hash_table rows

no_stash : table.stash ≡ []
unfolding Cuckoo.insert_all Cuckoo.new
no_stash = refl

no_more_than_four : length (occupied_blocks table.hash_table) ≤ 4
unfolding default_entry Cuckoo.insert_all Cuckoo.new
no_more_than_four = omega arith

no_collision : MissesEveryBin
unfolding correlation client1 server1 xor_block combine_in_place by_eight eight one_by_one update
    block_to_byte byte_to_block write_blocks write read_blocks read one_dimension default_entry
no_collision k (inl e) apart = absurd (apart (inl e))
no_collision k (inr (inl e)) apart = rw (e, block_equal) refl
no_collision k (inr (inr m)) apart = absurd m

parties_example :
    Returns
      (parties
        (λ b. b)
        zeros_solution
        three_places
        low_product
        encode
        lookup
        packing
        chosen
        (λ ot choices count i. selected ot choices i)
        addresses
        map_all
        draws
        3
        4
        8
        2
        receiver_vec
        sender_vec)
      λ answer.
        (value answer ≡ shared_count receiver_vec sender_vec)
        × (printed answer ≡ shared_count receiver_vec sender_vec / 2)
unfolding map_all
parties_example =
    parties_lem addresses 2 8 lengths (some_bits 7) (some_bits 1) (λ b. b) zeros_solution
      three_places low_product encode lookup 3 4 three_places-IsLinear (λ s keys n k d m. refl)
      list-IsStore draws draws-AreDrawn packing chosen (λ ot choices count i. selected ot choices i)
      (λ c h kind count messages choices i h' bound. refl) (λ ot choices count i h. refl) 1 refl 9
      map_all receiver_vec sender_vec table (rows, 0) (λ t. refl) table_run no_stash
      no_more_than_four (omega arith) (three_is_no_dummy, (eleven_is_no_dummy, tt)) sender-Distinct
      rows_run no_collision

padded_bins_example : (padded_bins 81 % 8 ≡ 0) × (81 ≤ padded_bins 81) × (padded_bins 81 < 81 + 8)
padded_bins_example = padded_bins_lem 81
