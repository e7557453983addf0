-- ===== src/Psi/Answer.antt =====
-- The answer that `psi_ca_receiver` of triangle_counting/circuit_psi.cpp prints.
use sectric.Common.{
  ℕ, ◌*◌, ◌/◌, ◌^◌, ◌<◌, ◌≤◌, ◌≡◌, refl, sym, ap, subst, ◌∙◌, List, [], length, get_or, arith,
}
use sectric.Common.Run.{Run, ok, Returns}
use sectric.Block.Sse.{Block}
use sectric.Block.Arith.{value}
use sectric.Hashing.Cuckoo
use sectric.Hashing.Cuckoo.{
  CuckooTable, resize, allocate_table, map_elements_to_table, as_raw_vector_no_id,
}
use sectric.Hashing.Cuckoo.Expected.{NoDummy}
use sectric.Hashing.Cuckoo.Mapped.{IsMapped}
use sectric.Hashing.Cuckoo.Elements.{MapsElements, IsMapped-table, stands_at_home}
use sectric.Hashing.Cuckoo.Census.{entry_sum, element_sum, IsMapped-entry_sum}
use sectric.Hashing.Simple
use sectric.Hashing.Simple.{as_raw_2d_vector_no_id}
use sectric.Hashing.Simple.Bins.{as_raw_2d_vector_no_id_lem}
use sectric.Equality.Leaf.{Transfer}
use sectric.Equality.Traverse.{Packing}
use sectric.Equality.Compare.Shares.{TransfersFor}
use sectric.Oprf.Agree.{IsLinear}
use sectric.Psi.{element_value, BlockTransfer, SendsChosen}
use sectric.Psi.Total.{counted}
use sectric.Psi.Parties.{Draws, parties, printed}
use sectric.Psi.Cells.{occupied_bins, occupied_blocks, no_id_from_lem}
use sectric.Psi.Rows.{Distinct}
use sectric.Psi.Shared.{is_member, shared_count, shared_count-le, element_sum-shared_count}
use sectric.Psi.Intersection.{NoCollision, after_tables_lem}
use sectric.Psi.Contracts.{IsStore, SolvesZeros, AreDrawn}

module _ (hash_to_position : ℕ → ℕ → List ℕ) (functions bins : ℕ)
    (lengths : (v : ℕ) → length (hash_to_position functions v) ≡ functions) (some_bin : 0 < bins)
    (some_function : 0 < functions) where
  -- The occupied bins of a mapped table are those of its entries.
  as_raw_of_mapped :
      (t r : CuckooTable)
      → IsMapped hash_to_position functions bins lengths some_bin some_function t r
      → as_raw_vector_no_id r ≡ ok (occupied_bins 0 r.hash_table, occupied_blocks r.hash_table)
  unfolding as_raw_vector_no_id
  as_raw_of_mapped t r m =
      rw (m.ready.bins_ready, sym m.ready.width) (no_id_from_lem r.hash_table 0)

  -- The sum over the entries of a mapped table whose elements are `vec`.
  table_sum :
      (t table : CuckooTable) (vec sender_vec : List ℕ)
      → IsMapped hash_to_position functions bins lengths some_bin some_function t table
      → t.elements ≡ vec
      → NoDummy vec
      → table.stash ≡ []
      → entry_sum (λ x. counted (is_member x sender_vec) (element_value vec x)) table.hash_table
        ≡ shared_count vec sender_vec
  table_sum t table vec sender_vec m elements clean no_stash =
      let w : ℕ → ℕ = λ x. counted (is_member x sender_vec) (element_value vec x) in
      subst (λ xs. entry_sum w table.hash_table ≡ element_sum w xs) elements
        (IsMapped-entry_sum hash_to_position functions bins lengths some_bin some_function t table w
          m (subst NoDummy (sym elements) clean) no_stash)
      ∙ element_sum-shared_count vec sender_vec

  module _ {Seed : Type 0} (set_seed : Block → Seed)
      (solve : Seed → List Block → List Block → ℕ → Block)
      (decode : Seed → (ℕ → Block) → Block → Block) (mul : Block → Block → Block)
      (encode : List Block → List Block → ℕ → Block) (lookup : (ℕ → Block) → Block → Block)
      (size item_num : ℕ) (linear : IsLinear size decode mul) (solves : SolvesZeros solve decode)
      (store : IsStore encode lookup) (draws : Draws) (drawn : AreDrawn size bins mul draws)
      (p : Packing) (ot : Transfer) (transfer : BlockTransfer) (transfers : TransfersFor 5 ot)
      (sends : SendsChosen transfer) (w : ℕ) (aligned : bins ≡ 8 * w) where
    -- For a multiple of eight bins, elements of the receiver that are not the marker of empty
    -- bins and distinct elements of the sender, when the receiver's table used no stash and has no
    -- more occupied bins than the first store's number of items, and no key that only the receiver has collides by accident, and with the stores, transfers,
    -- triples, correlation and drawn values satisfying their contracts, the run of both parties
    -- from the two vectors of elements ends, the receiver's block is the number of its elements
    -- that are among the sender's, and it prints half of that number; the receiver has fewer than
    -- 2 ^ 64 elements.
    pub parties_lem :
        (unset : ℕ) (map_elements : CuckooTable → Run CuckooTable) (vec sender_vec : List ℕ)
        (table : CuckooTable) (raw : List (List Block) × ℕ)
        → MapsElements hash_to_position unset map_elements
        → map_elements (Cuckoo.insert_all (Cuckoo.new bins functions) vec) ≡ ok table
        → table.stash ≡ []
        → length (occupied_blocks table.hash_table) ≤ item_num
        → length vec < 2 ^ 64
        → NoDummy vec
        → Distinct sender_vec
        → as_raw_2d_vector_no_id hash_to_position
            (Simple.insert_all (Simple.new bins functions) sender_vec)
          ≡ ok raw
        → NoCollision set_seed solve decode mul encode lookup hash_to_position functions bins
            lengths some_bin some_function size item_num linear solves store draws drawn
            table.hash_table raw.0
        → Returns
            (parties set_seed solve decode mul encode lookup p ot transfer hash_to_position
              map_elements draws size item_num bins functions vec sender_vec)
            λ answer.
              (value answer ≡ shared_count vec sender_vec)
              × (printed answer ≡ shared_count vec sender_vec / 2)
    unfolding printed parties Simple.new Simple.insert_all
    parties_lem unset map_elements vec sender_vec table raw maps run no_stash enough few clean
          distinct rows none =
        let (t, elements, m) =
          IsMapped-table hash_to_position functions bins lengths some_bin some_function unset
            map_elements vec table maps run in
        let (raw', rows', (width, filled, columns)) =
          as_raw_2d_vector_no_id_lem hash_to_position functions bins lengths some_bin
            (Simple.insert_all (Simple.new bins functions) sender_vec) refl refl in
        let same_rows : raw' ≡ raw = cc in
        let answer =
          after_tables_lem set_seed solve decode mul encode lookup hash_to_position functions bins
            lengths some_bin some_function size item_num linear solves store draws drawn
            table.hash_table raw.0 sender_vec distinct
            (λ b. ap (λ (x : List (List Block) × ℕ). get_or x.0 b []) (sym same_rows) ∙ filled b)
            (stands_at_home hash_to_position functions bins lengths some_bin some_function t table
              m)
            p ot transfer map_elements vec w aligned transfers sends m.ready.width enough
            (table_sum t table vec sender_vec m elements clean no_stash) none in
        let small : shared_count vec sender_vec < 2 ^ 64 =
          omega (arith, few, shared_count-le vec sender_vec) in
        (
          answer.0,
          rw (run, as_raw_of_mapped t table m, rows) answer.1,
          (omega (arith, answer.2, small), omega (arith, answer.2, small)),
        )
