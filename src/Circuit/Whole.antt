-- ===== src/Circuit/Whole.antt =====
-- `run_circuit_psi` of triangle_counting/functionalities.cpp as a whole, from the two vectors of
-- elements to the shares.
use sectric.Common.{
  ℕ, ◌%◌, ◌<◌, ◌≤◌, ◌≡◌, ◌≢◌, sym, ap₂, subst, ◌∙◌, xor, List, [], length, get_or, get_elem?, some,
}
use sectric.Common.Run.{Run, ok, ◌>>=◌, >>=-eq-ok, Returns}
use sectric.Block.Sse.{Block}
use sectric.Hashing.Agree.{Member}
use sectric.Hashing.Entry.{Entry, dummy_element}
use sectric.Hashing.Cuckoo
use sectric.Hashing.Cuckoo.{CuckooTable, as_raw_vector}
use sectric.Hashing.Cuckoo.Elements.{MapsElements, IsMapped-table, stands_at_home}
use sectric.Hashing.Simple
use sectric.Hashing.Simple.{SimpleTable, as_raw_2d_vector}
use sectric.Hashing.Simple.Rows.{MapsRows, row_keys, as_raw_2d_vector-map_rows}
use sectric.Equality.Traverse.{Packing}
use sectric.Equality.Batch.{Transfer}
use sectric.Equality.Batch.Shares.{TransfersFor, HasTriples}
use sectric.Psi.Rows.{Distinct}
use sectric.Psi.Shared.{is_member}
use sectric.Circuit.{CircuitDraws, no_places, record_rows, filter_inputs, garble, run_circuit_psi}
use sectric.Circuit.Hint.{IsOprf}
use sectric.Circuit.Keys.{KeysOf, raw_from_lem, AreNamed, row_keys-source, key-is_member}
use sectric.Circuit.Answer.{NoAccident, client_words, context, after_tables_lem}

module _ (prng : Block → ℕ → ℕ) (ot_receiver : List ℕ → ℕ → Block)
    (ot_sender : List (List ℕ) → ℕ → ℕ → Block) (oprf : IsOprf ot_receiver ot_sender)
    (hash_to_position : ℕ → ℕ → List ℕ) (nfuns nbins fbins l beta : ℕ)
    (widths : (v : ℕ) → length (hash_to_position nfuns v) ≡ nfuns)
    (lengths : (v : ℕ) → length (hash_to_position 3 v) ≡ 3) (some_function : 0 < nfuns)
    (some_bin : 0 < nbins) (some_cell : 0 < fbins) (aligned : nbins % 4 ≡ 0) (positive : 0 < beta)
    (small : beta ≤ 8) (some_bit : 0 < l) (short : l ≤ 64) (few : l % beta ≤ 4) (p : Packing)
    (ot : Transfer) (contract : TransfersFor beta ot) (unset : ℕ)
    (map_elements : CuckooTable → Run CuckooTable)
    (maps : MapsElements hash_to_position unset map_elements)
    (map_rows : SimpleTable → Run SimpleTable)
    (maps_rows : MapsRows hash_to_position map_rows) where
  -- The keys that the client reads from its table.
  client_keys :
      (vec : List ℕ) (table : CuckooTable)
      → map_elements (Cuckoo.insert_all (Cuckoo.new nbins nfuns) vec) ≡ ok table
      → Returns (as_raw_vector table) (λ keys. (length keys ≡ nbins) × KeysOf table.hash_table keys)
  unfolding as_raw_vector
  client_keys vec table run =
      let (t, elements, m) =
        IsMapped-table hash_to_position nfuns nbins widths some_bin some_function unset map_elements
          vec table maps run in
      let (keys, ends, (width, found)) =
        raw_from_lem table.num_bins table.hash_table (m.ready.width ∙ sym m.ready.bins_ready) in
      (keys, ends, (width ∙ m.ready.bins_ready, found))

  module _ (draws : CircuitDraws) (triples : HasTriples draws.supply) (client server : List ℕ)
      (table hint : CuckooTable) (keys : List ℕ) (rows : List (List ℕ)) (cells : List ℕ)
      (made : map_elements (Cuckoo.insert_all (Cuckoo.new nbins nfuns) client) ≡ ok table)
      (keys_read : as_raw_vector table ≡ ok keys)
      (rows_read : (map_rows (Simple.insert_all (Simple.new nbins nfuns) server)
          >>= as_raw_2d_vector)
        ≡ ok rows)
      (hint_made : map_elements (Cuckoo.insert_all (Cuckoo.new fbins 3) (filter_inputs rows))
        ≡ ok hint)
      (no_stash : hint.stash ≡ []) (distinct : Distinct (filter_inputs rows))
      (clear : AreNamed hash_to_position nfuns nbins table.hash_table server)
      (garbled : garble prng draws.contents
          (ot_sender rows)
          (record_rows 0 rows no_places)
          fbins
          hint.hash_table
          draws.dummies
        ≡ ok cells) where
    keys_lem : (length keys ≡ nbins) × KeysOf table.hash_table keys
    keys_lem =
        let (keys', ends, found) = client_keys client table made in
        let same : keys' ≡ keys = cc in
        subst (λ k. (length k ≡ nbins) × KeysOf table.hash_table k) same found

    rows_lem :
        (length rows ≡ nbins)
        × ((b : ℕ) → get_or rows b [] ≡ row_keys hash_to_position nfuns nbins b server)
    rows_lem =
        let (rows', ends, found) =
          as_raw_2d_vector-map_rows hash_to_position nfuns nbins widths some_bin map_rows server
            maps_rows in
        let same : rows' ≡ rows = cc in
        subst
          (λ r.
            (length r ≡ nbins)
            × ((b : ℕ) → get_or r b [] ≡ row_keys hash_to_position nfuns nbins b server))
          same found

    real_keys :
        (b : ℕ) → Member (get_or keys b 0) (get_or rows b []) → get_or keys b 0 ≢ dummy_element
    real_keys b m d =
        let (y, f, m', bound, same) =
          row_keys-source hash_to_position nfuns nbins b (get_or keys b 0) server
            (subst (Member (get_or keys b 0)) (rows_lem.1 b) m) in
        clear.real y f m' bound (sym same ∙ d)

    -- For a multiple of four bins and three hint functions, when the hint's table used no stash,
    -- the server's keys are distinct, no key is the marker of empty bins or that of two elements,
    -- and no word agrees by accident, and with the tables, the pseudorandom function, the
    -- transfers and the triples satisfying their contracts, `run_circuit_psi` of both parties for
    -- `PSM1` ends, and their shares of each bin add up to whether the element that the client's
    -- table holds there is one of the server's.
    pub run_circuit_psi_lem :
        NoAccident l nbins
          (client_words prng ot_receiver hash_to_position fbins cells keys)
          draws.contents
          keys
          rows
        → Returns
            (run_circuit_psi prng ot_receiver ot_sender hash_to_position map_elements map_rows p ot
              (context nbins fbins nfuns l beta)
              draws
              client
              server)
            (λ z.
              (b : ℕ) (e : Entry)
              → b < nbins
              → get_elem? table.hash_table b ≡ some e
              → xor (z.0 b) (z.1 b) ≡ is_member e.value server)
    unfolding run_circuit_psi
    run_circuit_psi_lem quiet =
        let (t, elements, m) =
          IsMapped-table hash_to_position nfuns nbins widths some_bin some_function unset
            map_elements client table maps made in
        let (z, ends, shares) =
          after_tables_lem prng ot_receiver ot_sender oprf hash_to_position nbins fbins l beta
            lengths some_cell aligned positive small some_bit short few p ot contract unset
            map_elements maps map_rows draws triples keys rows keys_lem.0 rows_lem.0 distinct
            real_keys hint hint_made no_stash nfuns cells garbled quiet in
        let (simple, simple_made, simple_read) =
          >>=-eq-ok (map_rows (Simple.insert_all (Simple.new nbins nfuns) server)) as_raw_2d_vector
            rows_read in
        (
          z,
          rw (made, keys_read, simple_made, simple_read) ends,
          λ b e h at_b.
              shares b h
              ∙ ap₂ is_member (keys_lem.1 b e at_b) (rows_lem.1 b)
              ∙ key-is_member hash_to_position nfuns nbins table.hash_table server b e clear at_b
                  (λ there.
                    stands_at_home hash_to_position nfuns nbins widths some_bin some_function t
                      table m b e at_b there),
        )
