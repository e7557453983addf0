-- ===== src/Oprf.antt =====
-- The oblivious pseudorandom function of debug_files/vole_oprf.hpp. The key-value store (`Baxos`),
-- the multiplication of the field, the correlated vectors of `VOLE` and the seeds come from a
-- library: they are parameters. A vector of blocks that is indexed is a function from the index.
pub mod Xor
pub mod Loop
pub mod Bytes
pub mod Agree
pub mod Sizes
use sectric.Common.{
  ℕ, zero, suc, ◌+◌, ◌-◌, ◌*◌, ◌/◌, ◌%◌, ◌^◌, Bool, true, false, if◌then◌else◌, ltb, leb, bit_xor,
  List, [], ◌∷◌, ◌++◌, map, length, replicate, get_or, Option, none, some,
}
use sectric.Common.Run.{Run, ok, fault, ◌>>=◌, out_of_range}
use sectric.Common.Loops.{update}
use sectric.Block.Sse.{Block, make_block, zero_block}
use sectric.Graph.{write, write_blocks, read_blocks}

-- `a ^ b` on two blocks.
unfoldable pub xor_block : Block → Block → Block
xor_block a b = make_block (bit_xor a.high b.high) (bit_xor a.low b.low)

-- The first `size` entries of an array, as a vector.
abbrev pub tabulate : ℕ → (ℕ → Block) → List Block
tabulate zero a = []
tabulate (suc n) a = a 0 ∷ tabulate n (λ i. a (suc i))

-- The loop that is unrolled eight times, `while (i + 8 <= size)`, on the fuel `size`; each place
-- `i` of `k` becomes `f` of what it was and of place `i` of `p`.
unfoldable pub eight : (Block → Block → Block) → (ℕ → Block) → ℕ → (ℕ → Block) → ℕ → Block
eight f p i k =
    let k₀ = update k i (f (k i) (p i)) in
    let k₁ = update k₀ (i + 1) (f (k₀ (i + 1)) (p (i + 1))) in
    let k₂ = update k₁ (i + 2) (f (k₁ (i + 2)) (p (i + 2))) in
    let k₃ = update k₂ (i + 3) (f (k₂ (i + 3)) (p (i + 3))) in
    let k₄ = update k₃ (i + 4) (f (k₃ (i + 4)) (p (i + 4))) in
    let k₅ = update k₄ (i + 5) (f (k₄ (i + 5)) (p (i + 5))) in
    let k₆ = update k₅ (i + 6) (f (k₅ (i + 6)) (p (i + 6))) in
    update k₆ (i + 7) (f (k₆ (i + 7)) (p (i + 7)))

-- Where the loop stops, and what it leaves.
unfoldable pub by_eight :
    (Block → Block → Block) → (ℕ → Block) → ℕ → ℕ → ℕ → (ℕ → Block) → ℕ × (ℕ → Block)
by_eight f p size zero i k = (i, k)
by_eight f p size (suc fuel) i k = elim (leb (i + 8) size) [
  | true ↦ by_eight f p size fuel (i + 8) (eight f p i k)
  | false ↦ (i, k)
]

-- The loop for the rest, `while (i < size)`.
unfoldable pub one_by_one :
    (Block → Block → Block) → (ℕ → Block) → ℕ → ℕ → ℕ → (ℕ → Block) → ℕ → Block
one_by_one f p size zero i k = k
one_by_one f p size (suc fuel) i k = elim (ltb i size) [
  | true ↦ one_by_one f p size fuel (i + 1) (update k i (f (k i) (p i)))
  | false ↦ k
]

unfoldable pub combine_in_place :
    (Block → Block → Block) → (ℕ → Block) → ℕ → (ℕ → Block) → ℕ → Block
combine_in_place f p size k =
    let done = by_eight f p size size 0 k in one_by_one f p size size done.0 done.1

-- `BlockToByte` and `BlockToV8`: each block is copied as its sixteen bytes.
unfoldable pub block_to_byte : List Block → List ℕ
block_to_byte vec = write_blocks vec

unfoldable pub block_to_v8 : List Block → List (List ℕ)
block_to_v8 vec = map (λ b. write_blocks (b ∷ [])) vec

-- `ByteToBlock` copies `size() / 16` blocks, so the bytes that it reads are there.
unfoldable pub byte_to_block : List ℕ → List Block
byte_to_block bytes = elim (read_blocks (length bytes / 16) bytes) [ none ↦ [] | some r ↦ r.0 ]

-- `V8ToBlock` copies the first sixteen bytes of each row; a row that is shorter is read beyond its
-- end, and the block is not determined.
unfoldable pub v8_to_block : Block → List (List ℕ) → List Block
v8_to_block past rows =
    map (λ row. elim (read_blocks 1 row) [ none ↦ past | some r ↦ get_or r.0 0 past ]) rows

-- The numbers that `Setup` stores. `LOG_INPUT_NUM - 7` is one of 64 bits. A shift by 64 or more is
-- not defined, and its result is then `undetermined`. `bin_num` and `total_size` are those of the
-- store that `Baxos` makes; their products are of 64 bits.
pub record Pp : Type 0 where
  pub input_num : ℕ
  pub statistical_security_parameter : ℕ
  pub okvs_bin_size : ℕ
  pub okvs_output_size : ℕ
  pub key_size : ℕ
  pub range_size : ℕ
  pub thread_num : ℕ

abbrev pub log_bin_size : ℕ → ℕ
log_bin_size log = let shifted = (log + 2 ^ 64 - 7) % 2 ^ 64 in if ltb 8 shifted then shifted else 8

-- `1ull << n`
abbrev pub shifted_one : ℕ → ℕ → ℕ
shifted_one undetermined n = if ltb n 64 then 2 ^ n else undetermined

unfoldable pub setup : (ℕ → ℕ → ℕ × ℕ) → ℕ → ℕ → ℕ → Pp
setup baxos undetermined log security =
    let input_num = shifted_one undetermined log in
    let bin_size = shifted_one undetermined (log_bin_size log) in
    let made = baxos input_num bin_size in
    record {
      input_num = input_num;
      statistical_security_parameter = security;
      okvs_bin_size = bin_size;
      okvs_output_size = made.0 * made.1 % 2 ^ 64;
      key_size = 16 * (made.0 * made.1 % 2 ^ 64) % 2 ^ 64;
      range_size = 16;
      thread_num = 8;
    }

module _ {Seed : Type 0} (set_seed : Block → Seed)
    (solve : Seed → List Block → List Block → ℕ → Block)
    (decode : Seed → (ℕ → Block) → Block → Block) (mul : Block → Block → Block) where
  -- `okvs.decode(keys, output, table)` with `output(ITEM_NUM)`: the values of the keys, and zeros.
  -- With more keys than places the values are written beyond the end of `output`.
  unfoldable pub decode_all : Seed → List Block → ℕ → (ℕ → Block) → Run (List Block)
  decode_all seed keys item_num table =
      if ltb item_num (length keys)
      then fault out_of_range
      else ok (map (decode seed table) keys ++ replicate (item_num - length keys) zero_block)

  -- What the client sends, and the end of its run, which comes after it. `a` and `c` are its part of
  -- the correlation.
  unfoldable pub client1 :
      List Block
      → ℕ
      → ℕ
      → Block
      → (ℕ → Block)
      → (ℕ → Block)
      → (Block × (ℕ → Block)) × Run (List Block)
  client1 vec_x item_num size seed_r a c =
      let seed = set_seed seed_r in
      let p = solve seed vec_x (replicate item_num zero_block) in
      ((seed_r, combine_in_place xor_block a size p), decode_all seed vec_x item_num c)

  -- The server's key, from its part `b` of the correlation and what it receives.
  unfoldable pub server1 : ℕ → Block → (ℕ → Block) → Block × (ℕ → Block) → List ℕ
  server1 size delta b received =
      block_to_byte
        (tabulate size (combine_in_place (λ k p. xor_block k (mul delta p)) received.1 size b))

  unfoldable pub evaluate1 : Block → List ℕ → List Block → ℕ → Run (List Block)
  evaluate1 seed_r oprf_key vec_y item_num =
      let key = byte_to_block oprf_key in
      decode_all (set_seed seed_r) vec_y item_num (λ j. get_or key j zero_block)

  -- `Client`, `Server` and `Evaluate` are the same, but for their results as bytes.
  unfoldable pub client :
      List Block
      → ℕ
      → ℕ
      → Block
      → (ℕ → Block)
      → (ℕ → Block)
      → (Block × (ℕ → Block)) × Run (List (List ℕ))
  client vec_x item_num size seed_r a c =
      let r = client1 vec_x item_num size seed_r a c in
      (r.0, r.1 >>= (λ output. ok (block_to_v8 output)))

  unfoldable pub evaluate : Block → List ℕ → List Block → ℕ → Run (List (List ℕ))
  evaluate seed_r oprf_key vec_y item_num = do
    output ← evaluate1 seed_r oprf_key vec_y item_num
    ok (block_to_v8 output)
