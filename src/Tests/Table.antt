-- ===== src/Tests/Table.antt =====
-- The table of `run_circuit_psi` in triangle_counting/functionalities.cpp on concrete words.
use sectric.Common.{
  ℕ, ◌+◌, ◌/◌, ◌<◌, ◌≡◌, refl, true, not, ◌==◌, ◌*◌, get_or, if◌then◌else◌, [], ◌∷◌, arith,
}
use sectric.Common.Run.{Returns}
use sectric.Block.Sse.{Block, make_block, zero_block}
use sectric.Circuit.{PsiContext}
use sectric.Circuit.Table.{bit_address, build_table, tabulate, opprf_rows, TableDraws}
use sectric.Circuit.Nonces.{Serves, done, skip, take}
use sectric.Circuit.Opened.{Fits, Opens, build_table_lem}
use sectric.Tests.Shares.{supply}
use sectric.Tests.Circuit.{send, all_below, all_below_sound}

abbrev pub hash_with : ℕ → Block → ℕ
hash_with v nonce = v / (1 + nonce.low)

abbrev opened_words : ℕ → ℕ
opened_words i = 20 + i

-- The first nonce sends two masks of bin 0 to one place.
abbrev table_draws : TableDraws
table_draws = record {
  server_contents = λ b. if b == 0 then 21 else 50 + b;
  client_contents = λ b. 300 + b;
  dummies = λ n. 77;
  nonces = make_block 1 5 ∷ make_block 1 0 ∷ make_block 1 0 ∷ make_block 1 0 ∷ make_block 1 0 ∷ [];
  beyond = λ b. 900;
  addresses_memory = λ i. 66;
  contents_memory = λ i. 55;
  table_memory = λ i. 44;
  shares_memory = λ i. true;
  supply_0 = supply;
  supply_1 = supply;
}

abbrev pub small_context : PsiContext
small_context = record { nbins = 4; fbins = 8; nfuns = 2; ffuns = 3; bitlen = 16; radix = 5 }

abbrev bin_masks : ℕ → ℕ → Block
bin_masks = send (opprf_rows 4 3 opened_words)

abbrev FitsBin : ℕ → Block → Type 0
FitsBin = Fits hash_with 3 (omega arith) bin_masks (λ b. 900) (λ b. 300 + b)

separate_checked :
    all_below 4 (λ b. all_below 3 (λ k. all_below k (λ j. not (
      bit_address hash_with (bin_masks b j) (make_block 1 0)
      == bit_address hash_with (bin_masks b k) (make_block 1 0)))))
    ≡ true
unfolding all_below tabulate
separate_checked = refl

fits : (b : ℕ) → b < 4 → FitsBin b (make_block 1 0)
fits b h j k before inside =
    let row = all_below_sound 4 _ b separate_checked h in
    let column = all_below_sound 3 _ k row inside in
    let test = all_below_sound k _ j column before in ground (arith, test)

serves : Serves FitsBin 4 0 table_draws.nonces
unfolding tabulate
serves =
    skip (λ sep. sep 0 1 (omega arith) (omega arith) refl)
      (take (fits 0 (omega arith)) (
        take (fits 1 (omega arith))
          (take (fits 2 (omega arith)) (take (fits 3 (omega arith)) done))))

build_table_example :
    Returns
      (build_table hash_with 3 bin_masks (λ b. 900) (λ b. 300 + b) 4 0 table_draws.nonces (λ i. 44))
      (λ r.
        ((a : ℕ) → a < 0 * 4 → r.1 a ≡ 44)
        × ((b : ℕ)
            → b < 4
            → Opens hash_with 3
                (omega arith)
                bin_masks
                (λ b. 900)
                (λ b. 300 + b)
                (0 + b)
                (get_or r.0 b zero_block)
                r.1))
build_table_example =
    build_table_lem hash_with 3 (omega arith) bin_masks (λ b. 900) (λ b. 300 + b) 4 0
      table_draws.nonces (λ i. 44) serves
