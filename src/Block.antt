-- ===== src/Block.antt =====
-- 128-bit blocks (`__m128i`) and the arithmetic of triangle_counting/circuit_psi.cpp on them.
-- `Sse` has the vector instructions that it calls.
pub mod Sse
pub mod Carry
pub mod Arith
use sectric.Common.{ℕ, ◌+◌, ◌*◌, ◌/◌, ◌%◌, ◌^◌, ◌<◌, List, [], ◌∷◌}
use Sse.{
  Block, Dwords, make_block, zero_block, to_dwords, of_dwords, xor_si128, and_si128, or_si128,
  set1_epi32, cmpeq_epi32, cmpgt_epi32, shuffle_a0, shuffle_f5, add_epi64, sub_epi64,
  unpacklo_epi64,
}

-- The branch without XOP. The two names are crossed as in the source: `aflip` flips `b`.
unfoldable pub unsigned_lessthan : Block → Block → Block
unsigned_lessthan a b =
    let sign32 = set1_epi32 0x80000000 in
    let aflip = xor_si128 b sign32 in
    let bflip = xor_si128 a sign32 in
    let equal = cmpeq_epi32 b a in
    let bigger = cmpgt_epi32 aflip bflip in
    let biggerl = shuffle_a0 bigger in
    let eqbig = and_si128 equal biggerl in let hibig = or_si128 bigger eqbig in shuffle_f5 hibig

unfoldable pub add_with_carry : Block → Block → Block
add_with_carry x y =
    let z = add_epi64 x y in
    let c = unpacklo_epi64 zero_block (unsigned_lessthan z x) in sub_epi64 z c

unfoldable pub invert_block : Block → Block
invert_block a = xor_si128 a (cmpeq_epi32 zero_block zero_block)

unfoldable pub sub_with_borrow : Block → Block → Block
sub_with_borrow x y =
    let opposite = add_with_carry (invert_block y) (make_block 0 1) in add_with_carry x opposite
