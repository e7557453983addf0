-- ===== src/Psi/Intersection.antt =====
-- The answer of `psi_ca_receiver` of triangle_counting/circuit_psi.cpp, from the tables on.
use sectric.Common.{
  ℕ, ◌*◌, ◌%◌, ◌^◌, ◌<◌, ◌≤◌, ◌≡◌, ◌≢◌, sym, ap, ap₂, subst, ◌∙◌, inl, inr, true, false, List, [],
  ◌∷◌, length, map, replicate, get_or, get_elem?, some, arith,
}
use native.Mathlib.Nat.{mod-lt}
use sectric.Common.Run.{◌>>=◌, Run, Returns}
use sectric.Block.Sse.{Block, IsBlock, zero_block}
use sectric.Block.Arith.{value}
use sectric.Hashing.Entry.{Entry, dummy_element}
use sectric.Hashing.Agree.{Member, bin_blocks_iff, bin_blocks_of_Member}
use sectric.Hashing.Cuckoo.{CuckooTable}
use sectric.Hashing.Cuckoo.Place.{bin}
use sectric.Hashing.Cuckoo.Census.{entry_sum}
use sectric.Hashing.Simple.Bins.{bin_blocks}
use sectric.Equality.Leaf.{Transfer}
use sectric.Equality.Traverse.{Packing}
use sectric.Equality.Compare.Shares.{TransfersFor}
use sectric.Equality.Blocks.{block_equal}
use sectric.Oprf.{xor_block}
use sectric.Oprf.Xor.{xor_block_cancel, xor_block-IsBlock}
use sectric.Oprf.Agree.{IsLinear, evaluated, evaluated-IsBlock, evaluate1-map, client1-map}
use sectric.Psi.{element_value, BlockTransfer, SendsChosen, psi_ca}
use sectric.Psi.Total.{total, counted, psi_ca_lem}
use sectric.Psi.Parties.{
  Draws, one_dimension, mask_rows, unmask_results, place_blocks, after_tables,
}
use sectric.Psi.Cells.{
  block_of, occupied_bins, occupied_blocks, unmask_results-map, place_blocks-all, occupied_block,
  occupied_blocks-Distinct, occupied_bins-Increasing,
}
use sectric.Psi.Rows.{
  Distinct, Named, one_dimension_of_row, row_of_one_dimension, mask_rows-map,
  one_dimension-Distinct, bin_blocks-Distinct,
}
use sectric.Psi.Shared.{
  is_member, shared_count, Member-of_is_member, is_member_of_Member, bin_count, bins_total,
}
use sectric.Psi.Contracts.{IsStore, SolvesZeros, AreDrawn}

zero_block-IsBlock : IsBlock zero_block
zero_block-IsBlock = (omega arith, omega arith)

map-all :
    (P : Block → Type 0) (f : Block → Block)
    → ((k : Block) → P (f k))
    → (ks : List Block) (b : Block) → Member b (map f ks)
    → P b
map-all P f h [] b m = absurd m
map-all P f h (k ∷ ks) b (inl same) = subst P (sym same) (h k)
map-all P f h (k ∷ ks) b (inr m) = map-all P f h ks b m

module _ {Seed : Type 0} (set_seed : Block → Seed)
    (solve : Seed → List Block → List Block → ℕ → Block)
    (decode : Seed → (ℕ → Block) → Block → Block) (mul : Block → Block → Block)
    (encode : List Block → List Block → ℕ → Block) (lookup : (ℕ → Block) → Block → Block)
    (hash_to_position : ℕ → ℕ → List ℕ) (functions bins : ℕ)
    (lengths : (v : ℕ) → length (hash_to_position functions v) ≡ functions) (some_bin : 0 < bins)
    (some_function : 0 < functions) (size item_num : ℕ) (linear : IsLinear size decode mul)
    (solves : SolvesZeros solve decode) (store : IsStore encode lookup) (draws : Draws)
    (drawn : AreDrawn size bins mul draws) where
  module _ (es : List Entry) (rows : List (List Block)) where
    abbrev ck : List Block
    ck = occupied_blocks es

    abbrev keys : List Block
    keys = one_dimension rows

    abbrev bin_of : Block → ℕ
    bin_of k = bin hash_to_position functions bins k.low k.high

    -- The value of the pseudorandom function.
    abbrev function_of : Block → Block
    function_of =
        evaluated set_seed solve decode mul size linear draws.delta draws.seed_r draws.part_a
          draws.part_b draws.part_c drawn.correlation ck item_num

    -- What the sender stores for a key, and what the receiver gets for it.
    abbrev stored : Block → Block
    stored k = xor_block (draws.random_values (bin_of k)) (function_of k)

    abbrev unmasked : Block → Block
    unmasked k = xor_block (lookup (encode keys (map stored keys)) k) (function_of k)

    -- No key of the receiver that the sender does not store happens to give the bin's random block.
    abbrev pub NoCollision : Type 0
    NoCollision =
        (k : Block)
        → Member k ck
        → ¬ Member k keys
        → block_equal (unmasked k) (draws.random_values (bin_of k)) ≡ false

    module _ (sender_vec : List ℕ) (distinct : Distinct sender_vec)
        (filled : (b : ℕ)
          → get_or rows b [] ≡ bin_blocks hash_to_position functions bins b sender_vec)
        (at_home : (b : ℕ) (e : Entry)
          → get_elem? es b ≡ some e
          → e.value ≢ dummy_element
          → (e.current_function_id < functions) × (bin_of (block_of e) ≡ b)) where
      rows-Named : Named bin_of 0 rows
      rows-Named b k m =
          (bin_blocks_of_Member hash_to_position functions bins b k sender_vec
            (subst (λ l. Member k l) (filled b) m)).1
          ∙ omega arith

      keys-Distinct : Distinct keys
      keys-Distinct = one_dimension-Distinct bin_of rows 0 rows-Named (λ b.
          subst Distinct (sym (filled b))
            (bin_blocks-Distinct hash_to_position functions bins b sender_vec distinct))

      ck-Distinct : Distinct ck
      ck-Distinct =
          occupied_blocks-Distinct bin_of es 0
            (λ b e at_b real. (at_home b e at_b real).1 ∙ omega arith)

      function-IsBlock : (k : Block) → IsBlock (function_of k)
      function-IsBlock =
          evaluated-IsBlock set_seed solve decode mul size linear draws.delta draws.seed_r
            draws.part_a draws.part_b draws.part_c drawn.correlation ck item_num

      stored-IsBlock : (k : Block) → IsBlock (stored k)
      stored-IsBlock k =
          xor_block-IsBlock (draws.random_values (bin_of k)) (function_of k)
            (drawn.values-IsBlock (bin_of k) (mod-lt _ some_bin)) (function-IsBlock k)

      unmasked-IsBlock : (k : Block) → IsBlock (unmasked k)
      unmasked-IsBlock k =
          xor_block-IsBlock _ (function_of k) (store.lookup-IsBlock _ k) (function-IsBlock k)

      key_of_Member :
          (b : ℕ) (e : Entry)
          → get_elem? es b ≡ some e
          → e.value ≢ dummy_element
          → Member e.value sender_vec
          → Member (block_of e) keys
      key_of_Member b e at_b real m =
          let (in_range, home) = at_home b e at_b real in
          one_dimension_of_row rows b (block_of e) (
            subst (λ l. Member (block_of e) l) (sym (filled b))
              ((bin_blocks_iff hash_to_position functions bins b e.current_function_id e.value
                  sender_vec in_range home).1
                m))

      Member-of_key : (k : Block) → Member k keys → Member k.low sender_vec
      Member-of_key k m =
          let (b, m') = row_of_one_dimension rows k m in
          (bin_blocks_of_Member hash_to_position functions bins b k sender_vec
            (subst (λ l. Member k l) (filled b) m')).0

      -- The receiver's block of a bin whose element the sender has is the bin's random block.
      found :
          (b : ℕ) (e : Entry)
          → get_elem? es b ≡ some e
          → e.value ≢ dummy_element
          → is_member e.value sender_vec ≡ true
          → unmasked (block_of e) ≡ draws.random_values b
      found b e at_b real shared =
          let k = block_of e in
          let m = key_of_Member b e at_b real (Member-of_is_member e.value sender_vec shared) in
          let back = store.looked_up keys stored k keys-Distinct m (stored-IsBlock k) in
          let home = (at_home b e at_b real).1 in
          ap (λ v. xor_block v (function_of k)) back
          ∙ xor_block_cancel (draws.random_values (bin_of k)) (function_of k)
          ∙ ap draws.random_values home

      apart :
          NoCollision
          → (b : ℕ) (e : Entry) → get_elem? es b ≡ some e
          → e.value ≢ dummy_element
          → is_member e.value sender_vec ≡ false
          → block_equal (unmasked (block_of e)) (draws.random_values b) ≡ false
      apart none b e at_b real alone =
          let k = block_of e in
          subst (λ n. block_equal (unmasked k) (draws.random_values n) ≡ false)
            (at_home b e at_b real).1
            (none k (occupied_block es b e at_b real) (λ m.
              let shared = is_member_of_Member e.value sender_vec (Member-of_key k m) in
              absurd (ground arith)))

      module _ (p : Packing) (ot : Transfer) (transfer : BlockTransfer)
          (map_elements : CuckooTable → Run CuckooTable) (vec : List ℕ) where
        abbrev compared : List Block → Run Block
        compared decoded =
            psi_ca p ot transfer draws.supply_0 draws.supply_1 draws.triples_a draws.triples_b
              draws.stale vec draws.past draws.ot_r bins (occupied_bins 0 es) ck
              (place_blocks (occupied_bins 0 es) decoded (λ i. zero_block)) draws.random_values

        abbrev from_vectors : List Block → List Block → Run Block
        from_vectors results values =
            compared
              (unmask_results draws.past_block (map (lookup (encode keys values)) ck) results)

        abbrev from_outputs : List Block → List Block → Run Block
        from_outputs results output =
            from_vectors results (mask_rows draws.random_values 0 rows output)

        -- What the vectors of the two parties hold before the comparison.
        after_tables-compared :
            length ck ≤ item_num
            → after_tables set_seed solve decode mul encode lookup p ot transfer hash_to_position
                map_elements draws size item_num bins vec
                (occupied_bins 0 es)
                ck
                rows
              ≡ compared (map unmasked ck)
        unfolding after_tables
        after_tables-compared enough =
            let zeros : (k : Block)
                → Member k ck
                → decode (set_seed draws.seed_r)
                    (solve (set_seed draws.seed_r) ck (replicate item_num zero_block)) k
                  ≡ zero_block =
              λ k m. solves (set_seed draws.seed_r) ck item_num k ck-Distinct m in
            ap₂ (λ output result. output >>= (λ o. result >>= (λ r. from_outputs r o)))
              (evaluate1-map set_seed solve decode mul size linear draws.delta draws.seed_r
                draws.part_a draws.part_b draws.part_c drawn.correlation ck item_num keys)
              (client1-map set_seed solve decode mul size linear draws.delta draws.seed_r
                draws.part_a draws.part_b draws.part_c drawn.correlation ck item_num enough zeros)
            ∙ ap (from_vectors _)
                (mask_rows-map bin_of draws.random_values function_of rows 0 rows-Named)
            ∙ ap compared (
                unmask_results-map draws.past_block (lookup (encode keys (map stored keys)))
                  function_of ck _)

        pub after_tables_lem :
            (w : ℕ)
            → bins ≡ 8 * w
            → TransfersFor 5 ot
            → SendsChosen transfer
            → length es ≡ bins
            → length ck ≤ item_num
            → entry_sum (λ x. counted (is_member x sender_vec) (element_value vec x)) es
              ≡ shared_count vec sender_vec
            → NoCollision
            → Returns
                (after_tables set_seed solve decode mul encode lookup p ot transfer hash_to_position
                  map_elements draws size item_num bins vec
                  (occupied_bins 0 es)
                  ck
                  rows)
                λ answer. value answer ≡ shared_count vec sender_vec % 2 ^ 128
        after_tables_lem w aligned transfers sends width enough sums none =
            let eq_blocks : ℕ → Block =
              place_blocks (occupied_bins 0 es) (map unmasked ck) (λ i. zero_block) in
            let eq-IsBlock : (i : ℕ) → IsBlock (eq_blocks i) =
              place_blocks-all IsBlock (occupied_bins 0 es) (map unmasked ck) (λ i. zero_block)
                (map-all IsBlock unmasked unmasked-IsBlock ck) zero_block-IsBlock
                (λ j. zero_block-IsBlock) in
            let run =
              psi_ca_lem vec draws.past bins w (occupied_bins 0 es) ck draws.ot_r
                (occupied_bins-Increasing es 0 0 (omega arith)) drawn.unread drawn.messages-IsBlock
                transfer sends aligned p ot draws.supply_0 draws.supply_1 draws.triples_a
                draws.triples_b draws.stale eq_blocks draws.random_values transfers drawn.triples_0
                drawn.triples_1 drawn.triples (λ i h. (eq-IsBlock i, drawn.values-IsBlock i h)) in
            let counts =
              bin_count vec sender_vec es unmasked draws.random_values found (apart none) in
            let count =
              bins_total vec sender_vec es unmasked draws.random_values found (apart none) in
            (
              run.0,
              after_tables-compared enough ∙ run.1,
              run.2
                  ∙ ap (λ (n : ℕ). n % 2 ^ 128)
                      (subst (λ n. total n counts ≡ shared_count vec sender_vec) width
                        (count ∙ sums)),
            )
