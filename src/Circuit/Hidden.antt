-- ===== src/Circuit/Hidden.antt =====
-- `run_circuit_psi` of triangle_counting/functionalities.cpp for `PSM2`, from the tables of keys to
-- the shares.
use sectric.Common.{
  ℕ, ◌+◌, ◌*◌, ◌%◌, ◌<◌, ◌≤◌, ◌≡◌, ◌≢◌, sym, subst, ◌∙◌, inl, inr, xor, List, [], length, get_or,
  Bool-cases,
}
use sectric.Common.Run.{Run, ok, Returns}
use sectric.Block.Sse.{Block}
use sectric.Hashing.Agree.{Member}
use sectric.Hashing.Entry.{dummy_element}
use sectric.Hashing.Cuckoo
use sectric.Hashing.Cuckoo.{CuckooTable}
use sectric.Hashing.Cuckoo.Addresses.{
  HasAddresses, get_element_addresses, get_element_addresses_lem,
}
use sectric.Hashing.Cuckoo.Elements.{MapsElements}
use sectric.Equality.Leaf.{Transfer}
use sectric.Equality.Traverse.{Packing}
use sectric.Equality.Compare.Shares.{TransfersFor, HasTriples}
use sectric.Psi.Rows.{Distinct}
use sectric.Psi.Shared.{is_member, Member-of_is_member, is_member_of_Member}
use sectric.Circuit.{PsiContext, no_places, record_rows, filter_inputs, garble, opened_values}
use sectric.Circuit.Hint.{IsOprf}
use sectric.Circuit.Words.{word, opened_values_at, found_word, garble-Filled}
use sectric.Circuit.Table.{ts, opprf_rows, TableDraws, after_tables_psm2}
use sectric.Circuit.Nonces.{Serves}
use sectric.Circuit.Opened.{Fits}
use sectric.Circuit.Compared.{
  bin_values, MasksApart, Member-tabulate, tabulate-Member, compare_words_lem,
}

module _ (prng : Block → ℕ → ℕ) (ot_receiver : List ℕ → ℕ → Block)
    (ot_sender : List (List ℕ) → ℕ → ℕ → Block) (oprf : IsOprf ot_receiver ot_sender)
    (hash_to_position : ℕ → ℕ → List ℕ) (hash : ℕ → Block → ℕ) (p : Packing) (ot : Transfer)
    (c : PsiContext) (lengths : (v : ℕ) → length (hash_to_position c.ffuns v) ≡ c.ffuns)
    (some_bin : 0 < c.fbins) (some_function : 0 < c.ffuns) (few : c.ffuns ≤ ts)
    (aligned : c.nbins % 4 ≡ 0) (positive : 0 < c.radix) (small : c.radix ≤ 8)
    (some_bit : 0 < c.bitlen) (short : c.bitlen ≤ 64) (few_bits : c.bitlen % c.radix ≤ 4)
    (contract : TransfersFor c.radix ot) (unset : ℕ) (map_elements : CuckooTable → Run CuckooTable)
    (maps : MapsElements hash_to_position unset map_elements) (draws : TableDraws)
    (t0 : HasTriples draws.supply_0) (t1 : HasTriples draws.supply_1) (keys : List ℕ)
    (rows : List (List ℕ)) (keys_width : length keys ≡ c.nbins) (rows_width : length rows ≡ c.nbins)
    (distinct : Distinct (filter_inputs rows))
    (real : (b : ℕ) → Member (get_or keys b 0) (get_or rows b []) → get_or keys b 0 ≢ dummy_element)
    (hint : CuckooTable)
    (run : map_elements (Cuckoo.insert_all (Cuckoo.new c.fbins c.ffuns) (filter_inputs rows))
      ≡ ok hint)
    (no_stash : hint.stash ≡ []) (cells : List ℕ)
    (garbled : garble prng draws.server_contents
        (ot_sender rows)
        (record_rows 0 rows no_places)
        c.fbins
        hint.hash_table
        draws.dummies
      ≡ ok cells)
    (addresses : ℕ → ℕ)
    (addressed : get_element_addresses hash_to_position
        (Cuckoo.insert_all (Cuckoo.new c.fbins c.ffuns) keys)
        draws.addresses_memory
      ≡ ok addresses) where
  -- What the client opens for the bin and the function with the number `i`.
  abbrev pub client_values : ℕ → ℕ
  client_values =
      opened_values prng c.nbins c.ffuns (λ a. get_or cells a 0) addresses (ot_receiver keys)
        draws.contents_memory

  -- A word of the server that the client opens comes from a key of the server's row.
  abbrev pub WordsApart : Type 0
  WordsApart =
      (b f : ℕ)
      → b < c.nbins
      → f < c.ffuns
      → word prng ot_receiver hash_to_position c.ffuns c.nbins c.fbins cells keys keys_width b f
        ≡ draws.server_contents b
      → Member (get_or keys b 0) (get_or rows b [])

  value_at :
      (b f : ℕ)
      → b < c.nbins
      → f < c.ffuns
      → client_values (b * c.ffuns + f)
        ≡ word prng ot_receiver hash_to_position c.ffuns c.nbins c.fbins cells keys keys_width b f
  unfolding Cuckoo.insert_all Cuckoo.new
  value_at b f hb hf =
      let (addresses', addressed', at') =
        get_element_addresses_lem hash_to_position
          (Cuckoo.insert_all (Cuckoo.new c.fbins c.ffuns) keys) lengths some_bin
          draws.addresses_memory in
      let same : addresses' ≡ addresses = cc in
      let at =
        subst
          (λ a.
            HasAddresses hash_to_position (Cuckoo.insert_all (Cuckoo.new c.fbins c.ffuns) keys)
              lengths some_bin 0 keys a)
          same at' in
      opened_values_at prng ot_receiver hash_to_position c.ffuns c.nbins c.fbins cells keys
        keys_width addresses draws.contents_memory b f at hb hf

  -- The client opens the server's word of a bin exactly if its key is in the server's row.
  opened_is_member :
      (b : ℕ)
      → WordsApart
      → b < c.nbins
      → is_member (draws.server_contents b) (bin_values c.ffuns client_values b)
        ≡ is_member (get_or keys b 0) (get_or rows b [])
  opened_is_member b apart h =
      let value = draws.server_contents b in
      let opened = bin_values c.ffuns client_values b in
      let key = get_or keys b 0 in
      let row = get_or rows b [] in
      elim (Bool-cases (is_member key row)) [
        | inl there ↦
            let m = Member-of_is_member key row there in
            let (f, few_f, same) =
              found_word prng ot_receiver hash_to_position c.ffuns c.nbins c.fbins cells keys
                keys_width ot_sender oprf lengths some_bin some_function unset map_elements maps
                draws.server_contents rows rows_width distinct hint run no_stash b
                (garble-Filled prng ot_receiver hash_to_position c.ffuns c.nbins c.fbins cells keys
                  keys_width ot_sender oprf lengths some_bin some_function unset map_elements maps
                  draws.server_contents rows rows_width distinct hint run no_stash draws.dummies
                  garbled)
                h (real b m) m in
            is_member_of_Member value opened (
              tabulate-Member c.ffuns (λ j. client_values (b * c.ffuns + j)) value f few_f
                (sym (value_at b f h few_f ∙ same)))
            ∙ sym there
        | inr absent ↦ elim (Bool-cases (is_member value opened)) [
          | inr apart ↦ apart ∙ sym absent
          | inl hit ↦
              let (f, few_f, same) =
                Member-tabulate c.ffuns (λ j. client_values (b * c.ffuns + j)) value
                  (Member-of_is_member value opened hit) in
              let m = apart b f h few_f (sym (value_at b f h few_f) ∙ sym same) in
              let there = is_member_of_Member key row m in cc
        ]
      ]

  -- For a multiple of four bins and at most four hint functions, when the hint's table used no
  -- stash, the server's keys are distinct, no key is the marker of empty bins, no word and no
  -- mask agrees by accident and the nonces serve all bins, and with the tables, the pseudorandom
  -- function, the transfers and the triples satisfying their contracts, both parties of `PSM2`
  -- end, from the two vectors of keys on, and their shares of each bin add up to whether the
  -- client's key is in the server's row.
  pub after_tables_psm2_lem :
      WordsApart
      → Serves
          (Fits hash c.ffuns few
            (ot_sender (opprf_rows c.nbins c.ffuns client_values))
            draws.beyond
            draws.client_contents)
          c.nbins
          0
          draws.nonces
      → MasksApart ot_receiver ot_sender oprf hash p ot c aligned positive small some_bit short
          few_bits contract few draws t0 t1 client_values
      → Returns
          (after_tables_psm2 ot_receiver ot_sender hash p ot prng hash_to_position map_elements c
            draws keys rows)
          (λ z.
            (b : ℕ)
            → b < c.nbins
            → xor (z.0 b) (z.1 b) ≡ is_member (get_or keys b 0) (get_or rows b []))
  unfolding after_tables_psm2
  after_tables_psm2_lem words_apart serves masks_apart =
      let (z, ends, shares) =
        compare_words_lem ot_receiver ot_sender oprf hash p ot c aligned positive small some_bit
          short few_bits contract few draws t0 t1 client_values serves masks_apart in
      (z, rw (run, garbled, addressed) ends, λ b h. shares b h ∙ opened_is_member b words_apart h)
