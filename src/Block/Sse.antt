-- ===== src/Block/Sse.antt =====
-- The SSE2 instructions that triangle_counting/circuit_psi.cpp calls, as operations on four
-- 32-bit or two 64-bit lanes. A block is kept as its two 64-bit halves.
use sectric.Common.{
  ℕ, ◌+◌, ◌-◌, ◌*◌, ◌/◌, ◌%◌, ◌^◌, ◌<◌, ◌==◌, ltb, if◌then◌else◌, bit_xor, bit_and, bit_or,
}

pub record Block : Type 0 where
  pub high : ℕ
  pub low : ℕ

-- Lane 0 is the lowest.
pub record Dwords : Type 0 where
  pub d3 : ℕ
  pub d2 : ℕ
  pub d1 : ℕ
  pub d0 : ℕ

-- Every block of the program holds two 64-bit values.
abbrev pub IsBlock : Block → Type 0
IsBlock b = (b.high < 2 ^ 64) × (b.low < 2 ^ 64)

-- `Block::MakeBlock(high, low)` and `_mm_set_epi64x(high, low)`
abbrev pub make_block : ℕ → ℕ → Block
make_block h l = record { high = h; low = l }

abbrev pub zero_block : Block
zero_block = make_block 0 0

unfoldable pub to_dwords : Block → Dwords
to_dwords b = record {
  d3 = b.high / 2 ^ 32;
  d2 = b.high % 2 ^ 32;
  d1 = b.low / 2 ^ 32;
  d0 = b.low % 2 ^ 32;
}

unfoldable pub of_dwords : Dwords → Block
of_dwords d = make_block (d.d3 * 2 ^ 32 + d.d2) (d.d1 * 2 ^ 32 + d.d0)

abbrev pub zip_dwords : (ℕ → ℕ → ℕ) → Dwords → Dwords → Dwords
zip_dwords f x y = record { d3 = f x.d3 y.d3; d2 = f x.d2 y.d2; d1 = f x.d1 y.d1; d0 = f x.d0 y.d0 }

unfoldable pub lanewise : (ℕ → ℕ → ℕ) → Block → Block → Block
lanewise f a b = of_dwords (zip_dwords f (to_dwords a) (to_dwords b))

-- A bitwise operation may be read lane by lane.
unfoldable pub xor_si128 : Block → Block → Block
xor_si128 = lanewise bit_xor

unfoldable pub and_si128 : Block → Block → Block
and_si128 = lanewise bit_and

unfoldable pub or_si128 : Block → Block → Block
or_si128 = lanewise bit_or

unfoldable pub set1_epi32 : ℕ → Block
set1_epi32 d = of_dwords (record { d3 = d; d2 = d; d1 = d; d0 = d })

abbrev pub ones32 : ℕ
ones32 = 0xffffffff

abbrev pub eq32 : ℕ → ℕ → ℕ
eq32 a b = if a == b then ones32 else 0

-- The value of a 32-bit pattern as a signed integer, plus 2 ^ 31.
abbrev pub signed_rank : ℕ → ℕ
signed_rank a = (a + 2 ^ 31) % 2 ^ 32

abbrev pub gt32 : ℕ → ℕ → ℕ
gt32 a b = if ltb (signed_rank b) (signed_rank a) then ones32 else 0

unfoldable pub cmpeq_epi32 : Block → Block → Block
cmpeq_epi32 = lanewise eq32

unfoldable pub cmpgt_epi32 : Block → Block → Block
cmpgt_epi32 = lanewise gt32

-- `_mm_shuffle_epi32(x, 0xA0)`: lanes 0 and 2 are each copied to the lane above.
unfoldable pub shuffle_a0 : Block → Block
shuffle_a0 a =
    let x = to_dwords a in of_dwords (record { d3 = x.d2; d2 = x.d2; d1 = x.d0; d0 = x.d0 })

-- `_mm_shuffle_epi32(x, 0xF5)`: lanes 1 and 3 are each copied to the lane below.
unfoldable pub shuffle_f5 : Block → Block
shuffle_f5 a =
    let x = to_dwords a in of_dwords (record { d3 = x.d3; d2 = x.d3; d1 = x.d1; d0 = x.d1 })

abbrev pub add64 : ℕ → ℕ → ℕ
add64 a b = (a + b) % 2 ^ 64

abbrev pub sub64 : ℕ → ℕ → ℕ
sub64 a b = (a + 2 ^ 64 - b) % 2 ^ 64

abbrev pub add_epi64 : Block → Block → Block
add_epi64 a b = make_block (add64 a.high b.high) (add64 a.low b.low)

abbrev pub sub_epi64 : Block → Block → Block
sub_epi64 a b = make_block (sub64 a.high b.high) (sub64 a.low b.low)

-- `_mm_unpacklo_epi64(a, b)`: the low half of `a` below the low half of `b`.
abbrev pub unpacklo_epi64 : Block → Block → Block
unpacklo_epi64 a b = make_block b.low a.low
