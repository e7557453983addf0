-- ===== src/Circuit/Answer.antt =====
-- The shares that `run_circuit_psi` of triangle_counting/functionalities.cpp writes.
use sectric.Common.{
  ℕ, ◌+◌, ◌*◌, ◌/◌, ◌%◌, ◌^◌, ◌<◌, ◌≤◌, ◌≡◌, ◌≢◌, sym, ap, ap₂, ◌∙◌, inl, inr, Bool, true, false,
  xor, ◌==◌, List, [], length, get_or, arith, Bool-cases, ==_iff,
}
use sectric.Common.Run.{Run, ok, Returns}
use sectric.Common.Fill.{fill1-miss}
use sectric.Block.Sse.{Block}
use sectric.Hashing.Agree.{Member}
use sectric.Hashing.Entry.{dummy_element}
use sectric.Hashing.Cuckoo
use sectric.Hashing.Cuckoo.{CuckooTable}
use sectric.Hashing.Cuckoo.Addresses.{get_element_addresses_lem}
use sectric.Hashing.Cuckoo.Elements.{MapsElements}
use sectric.Hashing.Simple.{SimpleTable}
use sectric.Equality.Traverse.{Packing}
use sectric.Equality.Batch.{Transfer}
use sectric.Equality.Batch.Shares.{
  any, any-true, any-false, parity-eq-any, matches, TransfersFor, HasTriples,
  perform_batch_equality_lem,
}
use sectric.Equality.Batch.Tree.{parity-cong}
use sectric.Psi.Rows.{Distinct}
use sectric.Psi.Shared.{is_member, Member-of_is_member, is_member_of_Member}
use sectric.Circuit.{
  PsiContext, CircuitDraws, no_places, record_rows, filter_inputs, garble, opened_values,
  pad_client, pad_server, num_cmps, after_tables,
}
use sectric.Circuit.Hint.{IsOprf, opened_word}
use sectric.Circuit.Words.{opened_values_at, found_word, garble-Filled}
use sectric.Circuit.Sizes.{num_cmps_groups, num_cmps_above}

-- No word that the client opens agrees by accident: the three words of a bin differ, and one that
-- is the server's comes from a key that the server's row has.
pub record NoAccident (l nbins : ℕ) (words : ℕ → ℕ → ℕ) (contents : ℕ → ℕ) (keys : List ℕ)
    (rows : List (List ℕ)) : Type 0 where
  pub words_differ :
      (b f f' : ℕ) → b < nbins → f < f' → f' < 3 → words b f % 2 ^ l ≢ words b f' % 2 ^ l
  pub words_apart :
      (b f : ℕ)
      → b < nbins
      → f < 3
      → words b f % 2 ^ l ≡ contents b % 2 ^ l
      → Member (get_or keys b 0) (get_or rows b [])

-- The padding lies behind the bins.
client_word :
    (nbins b f : ℕ) (content : ℕ → ℕ)
    → b < nbins
    → f < 3
    → pad_client nbins content (b * 3 + f) ≡ content (b * 3 + f)
unfolding pad_client
client_word nbins b f content hb hf =
    fill1-miss (3 * (nbins % 8)) (λ i. 3 * nbins + i) _ (λ i j h h' e. omega (arith, e)) content
      (b * 3 + f) (λ i h e. absurd (omega (arith, e, hb, hf)))

server_word : (nbins b : ℕ) (content : ℕ → ℕ) → b < nbins → pad_server nbins content b ≡ content b
unfolding pad_server
server_word nbins b content hb =
    fill1-miss (nbins % 8) (λ i. nbins + i) _ (λ i j h h' e. omega (arith, e)) content b
      (λ i h e. absurd (omega (arith, e, hb)))

-- Some opened word is the server's exactly if the key is in the row.
any-is_member :
    (l b nbins : ℕ) (words : ℕ → ℕ → ℕ) (contents : ℕ → ℕ) (keys : List ℕ) (rows : List (List ℕ))
    → NoAccident l nbins words contents keys rows
    → b < nbins
    → (Member (get_or keys b 0) (get_or rows b []) → (f : ℕ) × (f < 3) × (words b f ≡ contents b))
    → any 3 (λ f. words b f % 2 ^ l == contents b % 2 ^ l)
      ≡ is_member (get_or keys b 0) (get_or rows b [])
any-is_member l b nbins words contents keys rows quiet h found =
    let key = get_or keys b 0 in
    let row = get_or rows b [] in
    let test : ℕ → Bool = λ f. words b f % 2 ^ l == contents b % 2 ^ l in
    elim (Bool-cases (is_member key row)) [
      | inl there ↦
          let (f, few, same) = found (Member-of_is_member key row there) in
          any-true 3 test f few ((==_iff _ _).1 (ap (λ (x : ℕ). x % 2 ^ l) same)) ∙ sym there
      | inr absent ↦
          any-false 3 test (λ f few. elim (Bool-cases (test f)) [
            | inr apart ↦ apart
            | inl hit ↦
                let present =
                  is_member_of_Member key row (quiet.words_apart b f h few ((==_iff _ _).0 hit)) in
                cc
          ])
          ∙ sym absent
    ]

-- The words that the client opens for its keys, from the cells of the filter.
abbrev pub client_words :
    (Block → ℕ → ℕ) → (List ℕ → ℕ → Block) → (ℕ → ℕ → List ℕ) → ℕ → List ℕ → List ℕ → ℕ → ℕ → ℕ
client_words prng ot_receiver hash_to_position fbins cells keys b f =
    opened_word prng ot_receiver hash_to_position 3 fbins cells keys b (get_or keys b 0) f

-- The number of hint functions is that of the words in a batch.
abbrev pub context : ℕ → ℕ → ℕ → ℕ → ℕ → PsiContext
context nbins fbins nfuns l beta = record {
  nbins = nbins;
  fbins = fbins;
  nfuns = nfuns;
  ffuns = 3;
  bitlen = l;
  radix = beta;
}

module _ (prng : Block → ℕ → ℕ) (ot_receiver : List ℕ → ℕ → Block)
    (ot_sender : List (List ℕ) → ℕ → ℕ → Block) (oprf : IsOprf ot_receiver ot_sender)
    (hash_to_position : ℕ → ℕ → List ℕ) (nbins fbins l beta : ℕ)
    (lengths : (v : ℕ) → length (hash_to_position 3 v) ≡ 3) (some_bin : 0 < fbins)
    (aligned : nbins % 4 ≡ 0) (positive : 0 < beta) (small : beta ≤ 8) (some_bit : 0 < l)
    (short : l ≤ 64) (few : l % beta ≤ 4) (p : Packing) (ot : Transfer)
    (contract : TransfersFor beta ot) (unset : ℕ) (map_elements : CuckooTable → Run CuckooTable)
    (maps : MapsElements hash_to_position unset map_elements)
    (map_rows : SimpleTable → Run SimpleTable) where
  some_function : 0 < 3
  some_function = omega arith

  module _ (draws : CircuitDraws) (triples : HasTriples draws.supply) (keys : List ℕ)
      (rows : List (List ℕ)) (keys_width : length keys ≡ nbins) (rows_width : length rows ≡ nbins)
      (distinct : Distinct (filter_inputs rows))
      (real : (b : ℕ)
        → Member (get_or keys b 0) (get_or rows b [])
        → get_or keys b 0 ≢ dummy_element)
      (hint : CuckooTable)
      (run : map_elements (Cuckoo.insert_all (Cuckoo.new fbins 3) (filter_inputs rows)) ≡ ok hint)
      (no_stash : hint.stash ≡ []) where
    abbrev masks : ℕ → ℕ → Block
    masks = ot_sender rows

    one_word :
        (b f f' : ℕ) (cells : List ℕ)
        → NoAccident l nbins
            (client_words prng ot_receiver hash_to_position fbins cells keys)
            draws.contents
            keys
            rows
        → b < nbins
        → f < f'
        → f' < 3
        → (client_words prng ot_receiver hash_to_position fbins cells keys b f' % 2 ^ l
            == draws.contents b % 2 ^ l)
          ≡ true
        → (client_words prng ot_receiver hash_to_position fbins cells keys b f % 2 ^ l
            == draws.contents b % 2 ^ l)
          ≡ false
    one_word b f f' cells quiet h before inside hit =
        ground (arith, quiet.words_differ b f f' h before inside, hit)

    pub after_tables_lem :
        (nfuns : ℕ) (cells : List ℕ)
        → garble prng draws.contents masks
            (record_rows 0 rows no_places)
            fbins
            hint.hash_table
            draws.dummies
          ≡ ok cells
        → NoAccident l nbins
            (client_words prng ot_receiver hash_to_position fbins cells keys)
            draws.contents
            keys
            rows
        → Returns
            (after_tables prng ot_receiver ot_sender hash_to_position map_elements map_rows p ot
              (context nbins fbins nfuns l beta)
              draws
              keys
              rows)
            (λ z.
              (b : ℕ)
              → b < nbins
              → xor (z.0 b) (z.1 b) ≡ is_member (get_or keys b 0) (get_or rows b []))
    unfolding after_tables Cuckoo.insert_all Cuckoo.new
    after_tables_lem nfuns cells garbled quiet =
        let filled =
          garble-Filled prng ot_receiver hash_to_position 3 nbins fbins cells keys keys_width
            ot_sender oprf lengths some_bin some_function unset map_elements maps draws.contents
            rows rows_width distinct hint run no_stash draws.dummies garbled in
        let (addresses, addressed, at) =
          get_element_addresses_lem hash_to_position (Cuckoo.insert_all (Cuckoo.new fbins 3) keys)
            lengths some_bin draws.addresses_memory in
        let values =
          opened_values prng nbins 3 (λ a. get_or cells a 0) addresses (ot_receiver keys)
            draws.contents_memory in
        let (z, ends, shares) =
          perform_batch_equality_lem p ot l beta 3 (num_cmps nbins) (num_cmps nbins / 8)
            (num_cmps_groups nbins aligned) positive small some_bit short few (omega arith) contract
            draws.supply (pad_client nbins values) (pad_server nbins draws.contents) triples in
        (
          z,
          rw (run, garbled, addressed) ends,
          λ b h.
              let word : (f : ℕ)
                  → f < 3
                  → matches l 3 (pad_client nbins values) (pad_server nbins draws.contents) b f ≡ (
                      client_words prng ot_receiver hash_to_position fbins cells keys b f % 2 ^ l
                      == draws.contents b % 2 ^ l) =
                λ f hf.
                  ap₂ (λ (x y : ℕ). x % 2 ^ l == y % 2 ^ l)
                    (client_word nbins b f values h hf
                      ∙ opened_values_at prng ot_receiver hash_to_position 3 nbins fbins cells keys
                          keys_width addresses draws.contents_memory b f at h hf)
                    (server_word nbins b draws.contents h) in
              shares b (num_cmps_above nbins b h)
              ∙ parity-cong 3 _ _ word
              ∙ parity-eq-any 3 _
                  (λ f f' before inside hit. one_word b f f' cells quiet h before inside hit)
              ∙ any-is_member l b nbins
                  (client_words prng ot_receiver hash_to_position fbins cells keys) draws.contents
                  keys rows quiet h
                  (λ there.
                    found_word prng ot_receiver hash_to_position 3 nbins fbins cells keys keys_width
                      ot_sender oprf lengths some_bin some_function unset map_elements maps
                      draws.contents rows rows_width distinct hint run no_stash b filled h
                      (real b there) there),
        )
