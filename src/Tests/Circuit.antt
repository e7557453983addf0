-- ===== src/Tests/Circuit.antt =====
-- `run_circuit_psi` of triangle_counting/functionalities.cpp on concrete elements.
use sectric.Common.{
  ℕ, zero, suc, ◌+◌, ◌*◌, ◌%◌, ◌^◌, ◌<◌, ◌≡◌, ◌↔◌, refl, sym, ap, subst, ◌∙◌, inl, inr, Bool, true,
  not, xor, ◌&&◌, ◌||◌, ◌==◌, List, [], ◌∷◌, length, get_or, get_elem?, some, bit_xor, arith,
}
use native.Mathlib.Decide.{ℕ_discrete}
use sectric.Common.Run.{Run, ok, ◌>>=◌, Returns}
use sectric.Common.Loops.{for_each, update}
use sectric.Block.Sse.{Block, make_block}
use sectric.Hashing.Entry.{
  Entry, dummy_element, default_entry, is_empty, iterate_function_number, get_current_address,
  get_address_at, set_current_address, set_possible_addresses,
}
use sectric.Hashing.Cuckoo
use sectric.Hashing.Cuckoo.{
  CuckooTable, allocate_table, map_elements_to_table, map_from, map_element, fresh_entry, settle,
  exchange, resize, as_raw_vector, no_epsilon,
}
use sectric.Hashing.Simple
use sectric.Hashing.Simple.{SimpleTable, as_raw_2d_vector, push_at, map_functions}
use sectric.Hashing.Simple.Rows.{row_keys, as_raw_2d_vector-map_rows}
use sectric.Psi.Rows.{Distinct}
use sectric.Psi.Shared.{is_member, Member-of_is_member}
use sectric.Circuit.{
  CircuitDraws, no_places, record_rows, record_row, filter_inputs, garble, garbled_cell, last_pad,
  num_cmps, run_circuit_psi,
}
use sectric.Hashing.Cuckoo.Mapped.{IsMapped}
use sectric.Hashing.Cuckoo.Elements.{IsMapped-table}
use sectric.Hashing.Cuckoo.Addresses.{
  HasAddresses, get_element_addresses, get_element_addresses_lem,
}
use sectric.Circuit.Keys.{AreNamed}
use sectric.Circuit.Places.{get_elem?_of_Member, Filled, garble_lem}
use sectric.Circuit.Answer.{NoAccident, client_words, context}
use sectric.Circuit.Hint.{opened_word, hint_lem}
use sectric.Circuit.Sizes.{num_cmps_aligned}
use sectric.Circuit.Whole.{run_circuit_psi_lem}
use sectric.Tests.Tables.{addresses}
use sectric.Tests.Shares.{packing, triples}
use sectric.Tests.Batch.{chosen_message, batch_supply}

-- The client's 4 is the server's, its 9 is not.
abbrev client : List ℕ
client = 4 ∷ 9 ∷ []

abbrev server : List ℕ
server = 4 ∷ 10 ∷ []

abbrev pub generator : Block → ℕ → ℕ
generator seed j = seed.high * 7 + seed.low * 911 + j * 4096

abbrev pub receive : List ℕ → ℕ → Block
receive keys b = make_block b (get_or keys b 0)

abbrev pub send : List (List ℕ) → ℕ → ℕ → Block
send rows b j = make_block b (get_or (get_or rows b []) j 0)

get_or_of_get_elem? :
    {A : Type 0} (xs : List A) (i : ℕ) (x d : A) → get_elem? xs i ≡ some x → get_or xs i d ≡ x
get_or_of_get_elem? [] i x d e = cc
get_or_of_get_elem? (y ∷ xs) zero x d e = cc
get_or_of_get_elem? (y ∷ xs) (suc i) x d e = get_or_of_get_elem? xs i x d e

pub same_masks :
    (keys : List ℕ) (rows : List (List ℕ)) (row : List ℕ) (b j key : ℕ)
    → get_elem? keys b ≡ some key
    → get_elem? rows b ≡ some row
    → get_elem? row j ≡ some key
    → receive keys b ≡ send rows b j
same_masks keys rows row b j key at_k at_r at_j = ap (make_block b) (
    get_or_of_get_elem? keys b key 0 at_k
    ∙ sym (get_or_of_get_elem? row j key 0 at_j)
    ∙ ap (λ (r : List ℕ). get_or r j 0) (sym (get_or_of_get_elem? rows b row [] at_r)))

abbrev entry_at : ℕ → ℕ → ℕ → ℕ → Entry
entry_at functions bins id v = record {
  num_of_hash_functions = functions;
  num_of_bins = bins;
  global_id = id;
  value = v;
  current_function_id = 0;
  possible_addresses = addresses functions v;
}

unfoldable pub map_all : CuckooTable → Run CuckooTable
map_all t = allocate_table 9 t >>= map_elements_to_table addresses

unfoldable map_bins : SimpleTable → Run SimpleTable
map_bins t = Simple.allocate_table t >>= Simple.map_elements_to_table addresses

abbrev client_table : CuckooTable
client_table = record (Cuckoo.insert_all (Cuckoo.new 4 2) client) {
  mapped = true;
  hash_table = entry_at 2 4 0 4 ∷ entry_at 2 4 1 9 ∷ default_entry 9 ∷ default_entry 9 ∷ [];
}

abbrev pub client_keys : List ℕ
client_keys = 4 ∷ 9 ∷ 18446744073709551606 ∷ 18446744073709551606 ∷ []

abbrev pub server_rows : List (List ℕ)
server_rows = (4 ∷ []) ∷ (5 ∷ []) ∷ (10 ∷ []) ∷ (11 ∷ []) ∷ []

abbrev pub hint_table : CuckooTable
hint_table = record {
  epsilon = no_epsilon;
  num_bins = 8;
  num_of_hash_functions = 3;
  elements = 4 ∷ 5 ∷ 10 ∷ 11 ∷ [];
  mapped = true;
  stash = [];
  recursion_limiter = 200;
  recursive_remappings_counter = 0;
  hash_table =
      default_entry 9
      ∷ default_entry 9
      ∷ entry_at 3 8 2 10
      ∷ entry_at 3 8 3 11
      ∷ entry_at 3 8 0 4
      ∷ entry_at 3 8 1 5
      ∷ default_entry 9
      ∷ default_entry 9
      ∷ [];
}

client_run : map_all (Cuckoo.insert_all (Cuckoo.new 4 2) client) ≡ ok client_table
unfolding map_all allocate_table map_elements_to_table map_from map_element fresh_entry settle
    exchange iterate_function_number get_current_address get_address_at is_empty default_entry
    set_current_address set_possible_addresses resize Cuckoo.insert_all Cuckoo.new
client_run = refl

pub hint_run :
    map_all (Cuckoo.insert_all (Cuckoo.new 8 3) (filter_inputs server_rows)) ≡ ok hint_table
unfolding map_all allocate_table map_elements_to_table map_from map_element fresh_entry settle
    exchange iterate_function_number get_current_address get_address_at is_empty default_entry
    set_current_address set_possible_addresses resize Cuckoo.insert_all Cuckoo.new filter_inputs
hint_run = refl

keys_run : as_raw_vector client_table ≡ ok client_keys
unfolding as_raw_vector Cuckoo.insert_all Cuckoo.new default_entry
keys_run = refl

rows_run :
    (map_bins (Simple.insert_all (Simple.new 4 2) server) >>= as_raw_2d_vector) ≡ ok server_rows
unfolding map_bins as_raw_2d_vector Simple.allocate_table Simple.map_elements_to_table
    Simple.map_from Simple.fresh_entry Simple.resize map_functions push_at get_address_at
    set_current_address set_possible_addresses Simple.insert_all Simple.new
rows_run = refl

abbrev draws : CircuitDraws
draws = record {
  contents = λ b. 100 + b;
  dummies = λ n. 5000 + n;
  addresses_memory = λ i. 66;
  contents_memory = λ i. 55;
  supply = batch_supply;
}

abbrev pub hint_cells : List ℕ
hint_cells = 5000 ∷ 5001 ∷ 9154 ∷ 10077 ∷ 3672 ∷ 4535 ∷ 5002 ∷ 5003 ∷ []

pub cells_run :
    garble generator draws.contents
      (send server_rows)
      (record_rows 0 server_rows no_places)
      8
      hint_table.hash_table
      draws.dummies
    ≡ ok hint_cells
unfolding garble garbled_cell last_pad for_each record_rows record_row update is_empty default_entry
cells_run = refl

-- Every number below a bound, checked by evaluation.
unfoldable pub all_below : ℕ → (ℕ → Bool) → Bool
all_below zero test = true
all_below (suc n) test = test n && all_below n test

pub all_below_sound :
    (n : ℕ) (test : ℕ → Bool) (x : ℕ) → all_below n test ≡ true → x < n → test x ≡ true
unfolding all_below
all_below_sound zero test x h l = absurd (omega arith)
all_below_sound (suc n) test x h l = elim (ℕ_discrete x n) [
  | yes same ↦ ground (arith, same, h)
  | no other ↦ all_below_sound n test x (ground (arith, h)) (omega (arith, other, l))
]

abbrev pub words : ℕ → ℕ → ℕ
words = client_words generator receive addresses 8 hint_cells client_keys

words_checked :
    all_below 4
      (λ b. all_below 3 (λ f'. all_below f' (λ f. not (words b f % 2 ^ 16 == words b f' % 2 ^ 16))))
    ≡ true
unfolding all_below
words_checked = refl

contents_checked :
    all_below 4 (λ b. all_below 3 (λ f.
      not (words b f % 2 ^ 16 == (100 + b) % 2 ^ 16)
      || is_member (get_or client_keys b 0) (get_or server_rows b [])))
    ≡ true
unfolding all_below
contents_checked = refl

quiet : NoAccident 16 4 words draws.contents client_keys server_rows
quiet = record {
  words_differ = λ b f f' hb hf hf'.
      let row = all_below_sound 4 _ b words_checked hb in
      let column = all_below_sound 3 _ f' row hf' in
      let test = all_below_sound f' _ f column hf in ground (arith, test);
  words_apart = λ b f hb hf same.
      let row = all_below_sound 4 _ b contents_checked hb in
      let test = all_below_sound 3 _ f row hf in
      Member-of_is_member (get_or client_keys b 0) (get_or server_rows b [])
        (ground (arith, test, same));
}

index_below : {A : Type 0} (xs : List A) (n : ℕ) (x : A) → get_elem? xs n ≡ some x → n < length xs
index_below [] n x e = cc
index_below (y ∷ xs) zero x e = omega arith
index_below (y ∷ xs) (suc n) x e = omega (arith, index_below xs n x e)

abbrev values : List ℕ
values = 4 ∷ 9 ∷ dummy_element ∷ dummy_element ∷ []

abbrev ReadsEntry : ℕ → Entry → Type 0
ReadsEntry b e =
    (e.value ≡ get_or values b 0) × (bit_xor e.value e.current_function_id ≡ get_or client_keys b 0)

read_entry : (b : ℕ) (e : Entry) → get_elem? client_table.hash_table b ≡ some e → ReadsEntry b e
unfolding default_entry
read_entry zero e at =
    let same : entry_at 2 4 0 4 ≡ e = cc in subst (ReadsEntry 0) same (refl, refl)
read_entry (suc zero) e at =
    let same : entry_at 2 4 1 9 ≡ e = cc in subst (ReadsEntry 1) same (refl, refl)
read_entry (suc (suc zero)) e at =
    let same : default_entry 9 ≡ e = cc in subst (ReadsEntry 2) same (refl, refl)
read_entry (suc (suc (suc zero))) e at =
    let same : default_entry 9 ≡ e = cc in subst (ReadsEntry 3) same (refl, refl)
read_entry (suc (suc (suc (suc b)))) e at = cc

named_checked :
    all_below 4 (λ b. all_below 2 (λ g. all_below 2 (λ f.
      not (get_or client_keys b 0 == bit_xor (get_or server g 0) f)
      || get_or values b 0 == get_or server g 0)))
    ≡ true
unfolding all_below
named_checked = refl

real_checked :
    all_below 2 (λ g. all_below 2 (λ f. not (bit_xor (get_or server g 0) f == dummy_element)))
    ≡ true
unfolding all_below
real_checked = refl

clear : AreNamed addresses 2 4 client_table.hash_table server
clear = record {
  real = λ y f m hf.
      let (g, at_g) = get_elem?_of_Member server y m in
      let row = all_below_sound 2 _ g real_checked (index_below server g y at_g) in
      let test = all_below_sound 2 _ f row hf in
      let own = get_or_of_get_elem? server g y 0 at_g in ground (arith, test, own);
  no_dummy = λ m. elim m [
    | inl e ↦ absurd (omega (arith, e))
    | inr rest ↦ elim rest [ inl e ↦ absurd (omega (arith, e)) | inr none ↦ absurd none ]
  ];
  named = λ b e y f at_b m hf same.
      let (g, at_g) = get_elem?_of_Member server y m in
      let (val, key) = read_entry b e at_b in
      let row =
        all_below_sound 4 _ b named_checked (index_below client_table.hash_table b e at_b) in
      let column = all_below_sound 2 _ g row (index_below server g y at_g) in
      let test = all_below_sound 2 _ f column hf in
      let own = get_or_of_get_elem? server g y 0 at_g in ground (arith, test, own, val, key, same);
}

pub Distinct-keys : Distinct (filter_inputs server_rows)
unfolding filter_inputs
Distinct-keys = omega arith

run_circuit_psi_example :
    Returns
      (run_circuit_psi generator receive send addresses map_all map_bins packing chosen_message
        (context 4 8 2 16 5)
        draws
        client
        server)
      (λ z.
        (b : ℕ) (e : Entry)
        → b < 4
        → get_elem? client_table.hash_table b ≡ some e
        → xor (z.0 b) (z.1 b) ≡ is_member e.value server)
unfolding map_all map_bins
run_circuit_psi_example =
    run_circuit_psi_lem generator receive send same_masks addresses 2 4 8 16 5 (λ v. refl)
      (λ v. refl) (omega arith) (omega arith) (omega arith) (omega arith) (omega arith)
      (omega arith) (omega arith) (omega arith) (omega arith) packing chosen_message
      (λ c h kind count bits messages choices i h' bound fits. refl) 9 map_all (λ t. refl) map_bins
      (λ t. refl) draws triples client server client_table hint_table client_keys server_rows
      hint_cells client_run keys_run rows_run hint_run refl Distinct-keys clear cells_run quiet

hint-IsMapped :
    (t : CuckooTable) × (t.elements ≡ filter_inputs server_rows)
    × IsMapped addresses 3 8 (λ v. refl) (omega arith) (omega arith) t hint_table
unfolding map_all
hint-IsMapped =
    IsMapped-table addresses 3 8 (λ v. refl) (omega arith) (omega arith) 9 map_all
      (filter_inputs server_rows) hint_table (λ t. refl) hint_run

hint-Filled :
    Filled generator draws.contents
      (send server_rows)
      (record_rows 0 server_rows no_places)
      hint_table.hash_table
      hint_cells
hint-Filled =
    let (cells, run, filled) =
      garble_lem generator draws.contents (send server_rows) (record_rows 0 server_rows no_places) 8
        hint_table.hash_table draws.dummies refl in
    let same : cells ≡ hint_cells = cc (cells_run) in
    subst
      (λ c.
        Filled generator draws.contents (send server_rows) (record_rows 0 server_rows no_places)
          hint_table.hash_table c)
      same filled

hint_example :
    (f : ℕ) × (f < 3)
    × (opened_word generator receive addresses 3 8 hint_cells client_keys 0 4 f ≡ 100)
hint_example =
    hint_lem generator receive send same_masks addresses 3 8 (λ v. refl) (omega arith) (omega arith)
      draws.contents server_rows Distinct-keys hint-IsMapped.0 hint_table hint-IsMapped.1
      hint-IsMapped.2 refl 0 0 4 (4 ∷ []) client_keys hint_cells hint-Filled refl refl refl
      (omega arith)

num_cmps_example : (num_cmps 12 % 8 ≡ 0) ↔ ◌≡◌ {A = ℕ} (12 % 4) 0
num_cmps_example = num_cmps_aligned 12

as_raw_2d_vector_example :
    Returns
      (map_bins (Simple.insert_all (Simple.new 4 2) server) >>= as_raw_2d_vector)
      λ rows. (length rows ≡ 4) × ((b : ℕ) → get_or rows b [] ≡ row_keys addresses 2 4 b server)
unfolding map_bins
as_raw_2d_vector_example =
    as_raw_2d_vector-map_rows addresses 2 4 (λ v. refl) (omega arith) map_bins server (λ t. refl)

get_element_addresses_example :
    Returns
      (get_element_addresses addresses hint_table (λ i. 66))
      (HasAddresses addresses hint_table (λ v. refl) (omega arith) 0 hint_table.elements)
get_element_addresses_example =
    get_element_addresses_lem addresses hint_table (λ v. refl) (omega arith) (λ i. 66)
