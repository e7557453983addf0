-- ===== src/Tests/Hidden.antt =====
-- `run_circuit_psi` of triangle_counting/functionalities.cpp for `PSM2` on concrete keys.
use sectric.Common.{
  ℕ, zero, suc, ◌+◌, ◌%◌, ◌^◌, ◌<◌, ◌≡◌, ◌≢◌, refl, ap, inl, inr, true, not, xor, ◌&&◌, ◌||◌, ◌==◌,
  [], ◌∷◌, get_or, arith,
}
use sectric.Common.Run.{Run, ok, fault, Returns}
use sectric.Common.Loops.{for_each, update}
use sectric.Common.Fill.{fill1, fill2}
use sectric.Block.Sse.{Block, make_block}
use sectric.Hashing.Agree.{Member}
use sectric.Hashing.Entry.{dummy_element, get_address_at, set_possible_addresses}
use sectric.Hashing.Cuckoo
use sectric.Hashing.Cuckoo.{fresh_entry}
use sectric.Hashing.Cuckoo.Addresses.{get_element_addresses, addresses_from, write_addresses}
use sectric.Psi.Shared.{is_member, Member-of_is_member}
use sectric.Circuit.{opened_values}
use sectric.Circuit.Table.{bit_address, tabulate, opprf_rows, TableDraws, after_tables_psm2}
use sectric.Circuit.Nonces.{Serves, done, skip, take}
use sectric.Circuit.Opened.{Fits}
use sectric.Circuit.Compared.{bin_values, MasksApart}
use sectric.Circuit.Hidden.{after_tables_psm2_lem}
use sectric.Tests.Tables.{addresses}
use sectric.Tests.Shares.{packing, supply, triples, chosen}
use sectric.Tests.Circuit.{
  generator, receive, send, same_masks, map_all, client_keys, server_rows, hint_table, hint_cells,
  hint_run, cells_run, words, Distinct-keys, all_below, all_below_sound,
}
use sectric.Tests.Table.{hash_with, small_context}

abbrev draws : TableDraws
draws = record {
  server_contents = λ b. 100 + b;
  client_contents = λ b. 300 + b;
  dummies = λ n. 5000 + n;
  nonces = make_block 1 99 ∷ make_block 1 0 ∷ make_block 1 1 ∷ make_block 1 0 ∷ make_block 1 0 ∷ [];
  beyond = λ b. 900;
  addresses_memory = λ i. 66;
  contents_memory = λ i. 55;
  table_memory = λ i. 44;
  shares_memory = λ i. true;
  supply_0 = supply;
  supply_1 = supply;
}

abbrev result : Run (ℕ → ℕ) → ℕ → ℕ
result (ok memory) = memory
result (fault f) = λ i. 0

abbrev cell_addresses : ℕ → ℕ
cell_addresses =
    result
      (get_element_addresses addresses (Cuckoo.insert_all (Cuckoo.new 8 3) client_keys) (λ i. 66))

addresses_run :
    get_element_addresses addresses (Cuckoo.insert_all (Cuckoo.new 8 3) client_keys) (λ i. 66)
    ≡ ok cell_addresses
unfolding get_element_addresses addresses_from write_addresses get_address_at fresh_entry
    set_possible_addresses Cuckoo.insert_all Cuckoo.new
addresses_run = refl

abbrev values : ℕ → ℕ
values =
    opened_values generator 4 3 (λ a. get_or hint_cells a 0) cell_addresses (receive client_keys)
      (λ i. 55)

abbrev bin_masks : ℕ → ℕ → Block
bin_masks = send (opprf_rows 4 3 values)

abbrev FitsBin : ℕ → Block → Type 0
FitsBin = Fits hash_with 3 (omega arith) bin_masks (λ b. 900) (λ b. 300 + b)

abbrev good_nonce : ℕ → Block
good_nonce b = make_block 1 (get_or (0 ∷ 1 ∷ 0 ∷ 0 ∷ []) b 0)

separate_checked :
    all_below 4 (λ b. all_below 3 (λ k. all_below k (λ j. not (
      bit_address hash_with (bin_masks b j) (good_nonce b)
      == bit_address hash_with (bin_masks b k) (good_nonce b)))))
    ≡ true
unfolding all_below tabulate opened_values fill2 fill1 for_each update get_element_addresses
    addresses_from write_addresses get_address_at fresh_entry set_possible_addresses
    Cuckoo.insert_all Cuckoo.new
separate_checked = refl

collision :
    bit_address hash_with (bin_masks 0 0) (make_block 1 99)
    ≡ bit_address hash_with (bin_masks 0 2) (make_block 1 99)
unfolding all_below tabulate opened_values fill2 fill1 for_each update get_element_addresses
    addresses_from write_addresses get_address_at fresh_entry set_possible_addresses
    Cuckoo.insert_all Cuckoo.new
collision = refl

fits : (b : ℕ) → b < 4 → FitsBin b (good_nonce b)
fits b h j k before inside =
    let row = all_below_sound 4 _ b separate_checked h in
    let column = all_below_sound 3 _ k row inside in
    let test = all_below_sound k _ j column before in ground (arith, test)

serves : Serves FitsBin 4 0 draws.nonces
serves =
    skip (λ sep. sep 0 2 (omega arith) (omega arith) collision)
      (take (fits 0 (omega arith)) (
        take (fits 1 (omega arith))
          (take (fits 2 (omega arith)) (take (fits 3 (omega arith)) done))))

apart_checked :
    all_below 4 (λ b.
      is_member (100 + b) (bin_values 3 values b)
      || (not ((100 + b) % 2 ^ 16 == 900 % 2 ^ 16)
          && all_below 3 (λ j. not ((100 + b) % 2 ^ 16 == (bin_masks b j).low % 2 ^ 16))))
    ≡ true
unfolding all_below tabulate opened_values fill2 fill1 for_each update get_element_addresses
    addresses_from write_addresses get_address_at fresh_entry set_possible_addresses
    Cuckoo.insert_all Cuckoo.new
apart_checked = refl

masks_apart :
    MasksApart receive send same_masks hash_with packing chosen small_context
      (omega arith)
      (omega arith)
      (omega arith)
      (omega arith)
      (omega arith)
      (omega arith)
      (λ c h kind count messages choices i h' bound. refl)
      (omega arith)
      draws
      triples
      triples
      values
unfolding tabulate
masks_apart b m h absent (inl (j, few, own)) same =
    let row = all_below_sound 4 _ b apart_checked h in
    let column =
      all_below_sound 3 (λ j. not ((100 + b) % 2 ^ 16 == (bin_masks b j).low % 2 ^ 16)) j
        (ground (arith, row, absent)) few in
    let low = ap (λ (x : ℕ). x % 2 ^ 16) own in ground (arith, column, low, same)
masks_apart b m h absent (inr outside) same =
    let row = all_below_sound 4 _ b apart_checked h in
    let low = ap (λ (x : ℕ). x % 2 ^ 16) outside in ground (arith, row, absent, low, same)

words_checked :
    all_below 4 (λ b. all_below 3 (λ f.
      not (words b f == 100 + b) || is_member (get_or client_keys b 0) (get_or server_rows b [])))
    ≡ true
unfolding all_below
words_checked = refl

words_apart :
    (b f : ℕ)
    → b < 4
    → f < 3
    → words b f ≡ 100 + b
    → Member (get_or client_keys b 0) (get_or server_rows b [])
words_apart b f h few same =
    let row = all_below_sound 4 _ b words_checked h in
    let test = all_below_sound 3 _ f row few in
    Member-of_is_member (get_or client_keys b 0) (get_or server_rows b [])
      (ground (arith, test, same))

real :
    (b : ℕ)
    → Member (get_or client_keys b 0) (get_or server_rows b [])
    → get_or client_keys b 0 ≢ dummy_element
real zero m e = omega (arith, e)
real (suc zero) m e = omega (arith, e)
real (suc (suc zero)) m e = omega (arith, e)
real (suc (suc (suc zero))) m e = omega (arith, e)
real (suc (suc (suc (suc b)))) m e = omega (arith, e)

after_tables_psm2_example :
    Returns
      (after_tables_psm2 receive send hash_with packing chosen generator addresses map_all
        small_context draws client_keys server_rows)
      (λ z.
        (b : ℕ)
        → b < 4
        → xor (z.0 b) (z.1 b) ≡ is_member (get_or client_keys b 0) (get_or server_rows b []))
unfolding map_all
after_tables_psm2_example =
    after_tables_psm2_lem generator receive send same_masks addresses hash_with packing chosen
      small_context (λ v. refl) (omega arith) (omega arith) (omega arith) (omega arith)
      (omega arith) (omega arith) (omega arith) (omega arith) (omega arith)
      (λ c h kind count messages choices i h' bound. refl) 9 map_all (λ t. refl) draws triples
      triples client_keys server_rows refl refl Distinct-keys real hint_table hint_run refl
      hint_cells cells_run cell_addresses addresses_run words_apart serves masks_apart
