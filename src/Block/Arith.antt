-- ===== src/Block/Arith.antt =====
-- `add_with_carry` and `sub_with_borrow` of triangle_counting/circuit_psi.cpp as arithmetic on
-- the 128-bit numbers that blocks stand for.
use sectric.Common.{ℕ, ◌+◌, ◌-◌, ◌*◌, ◌/◌, ◌%◌, ◌^◌, ◌<◌, ◌≡◌, arith}
use sectric.Common.Bits.{bit_xor_ones}
use sectric.Block.{add_with_carry, invert_block, sub_with_borrow}
use sectric.Block.Sse.{
  Block, IsBlock, make_block, add_epi64, add64, xor_si128, cmpeq_epi32, lanewise, to_dwords,
  of_dwords,
}
use sectric.Block.Carry.{unsigned_lessthan_lanes, less_mask}

-- The number that a block stands for.
abbrev pub value : Block → ℕ
value b = b.high * 2 ^ 64 + b.low

pub value-lt : (b : Block) → IsBlock b → value b < 2 ^ 128
value-lt b h = omega arith

add64-lt : (a b : ℕ) → add64 a b < 2 ^ 64
add64-lt a b = omega arith

add_epi64-IsBlock : (x y : Block) → IsBlock (add_epi64 x y)
add_epi64-IsBlock x y = (add64-lt x.high y.high, add64-lt x.low y.low)

abbrev carry : Block → Block → ℕ
carry x y = less_mask 1 (add64 x.low y.low) x.low

add_halves :
    (x y : Block)
    → IsBlock x
    → IsBlock y
    → add_with_carry x y
      ≡ make_block ((x.high + y.high + carry x y) % 2 ^ 64) ((x.low + y.low) % 2 ^ 64)
unfolding add_with_carry
add_halves x y h k =
    rw (unsigned_lessthan_lanes (add_epi64 x y) x (add_epi64-IsBlock x y) h) (ground arith)

-- `add_with_carry` adds the 128-bit numbers of its arguments and drops what does not fit, and
-- gives two 64-bit halves again.
pub add_with_carry_lem :
    (x y : Block)
    → IsBlock x
    → IsBlock y
    → IsBlock (add_with_carry x y) × (value (add_with_carry x y) ≡ (value x + value y) % 2 ^ 128)
add_with_carry_lem x y h k = rw (add_halves x y h k) (ground arith)

invert_block_lem :
    (a : Block)
    → IsBlock a
    → IsBlock (invert_block a) × (value (invert_block a) + value a ≡ 2 ^ 128 - 1)
unfolding invert_block xor_si128 cmpeq_epi32 lanewise to_dwords of_dwords
invert_block_lem a h = omega (
  arith,
  bit_xor_ones 32 (a.high / 2 ^ 32) (omega arith),
  bit_xor_ones 32 (a.high % 2 ^ 32) (omega arith),
  bit_xor_ones 32 (a.low / 2 ^ 32) (omega arith),
  bit_xor_ones 32 (a.low % 2 ^ 32) (omega arith),
)

-- `sub_with_borrow` subtracts the 128-bit numbers of its arguments modulo 2 ^ 128, and gives two
-- 64-bit halves again.
pub sub_with_borrow_lem :
    (x y : Block)
    → IsBlock x
    → IsBlock y
    → IsBlock (sub_with_borrow x y)
      × (value (sub_with_borrow x y) ≡ (value x + 2 ^ 128 - value y) % 2 ^ 128)
unfolding sub_with_borrow
sub_with_borrow_lem x y h k =
    let inv = invert_block_lem y k in
    let one : IsBlock (make_block 0 1) = omega arith in
    let opp = add_with_carry_lem (invert_block y) (make_block 0 1) inv.0 one in
    let total = add_with_carry_lem x _ h opp.0 in
    (total.0, omega (arith, total.1, opp.1, inv.1, value-lt y k))
