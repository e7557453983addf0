-- ===== src/Block/Carry.antt =====
-- What `unsigned_lessthan` of triangle_counting/circuit_psi.cpp computes: the comparison of each
-- 64-bit lane, from comparisons of signed 32-bit lanes.
use sectric.Common.{
  ℕ, ◌+◌, ◌*◌, ◌/◌, ◌%◌, ◌^◌, ◌<◌, ◌≡◌, ◌∙◌, ap₂, ltb, if◌then◌else◌, arith, bit_xor, bit_and,
  bit_or,
}
use native.Mathlib.Decide.{dec_lt}
use sectric.Common.Bits.{bit_xor_high_bit, bit_xor-lt}
use sectric.Block.{unsigned_lessthan}
use sectric.Block.Sse.{
  Block, Dwords, IsBlock, make_block, to_dwords, of_dwords, zip_dwords, lanewise, ones32, eq32,
  gt32, signed_rank, xor_si128, and_si128, or_si128, set1_epi32, cmpeq_epi32, cmpgt_epi32,
  shuffle_a0, shuffle_f5,
}

abbrev IsDwords : Dwords → Type 0
IsDwords d = (d.d3 < 2 ^ 32) × (d.d2 < 2 ^ 32) × (d.d1 < 2 ^ 32) × (d.d0 < 2 ^ 32)

to_dwords-of_dwords : (d : Dwords) → IsDwords d → to_dwords (of_dwords d) ≡ d
unfolding to_dwords of_dwords
to_dwords-of_dwords d h = ground arith

pub of_dwords-to_dwords : (b : Block) → of_dwords (to_dwords b) ≡ b
unfolding to_dwords of_dwords
of_dwords-to_dwords b = ground arith

pub to_dwords-IsDwords : (b : Block) → IsBlock b → IsDwords (to_dwords b)
unfolding to_dwords
to_dwords-IsDwords b h = omega arith

-- A pattern with its sign flipped has, as a signed number, the rank of the pattern itself.
flip_rank : (a : ℕ) → a < 2 ^ 32 → signed_rank (bit_xor a 0x80000000) ≡ a
flip_rank a h = elim (dec_lt a (2 ^ 31)) [
  | yes p ↦ omega (arith, (bit_xor_high_bit 31 a).0 p)
  | no p ↦ omega (arith, (bit_xor_high_bit 31 a).1 (omega arith) (omega arith))
]

flip-lt : (a : ℕ) → a < 2 ^ 32 → bit_xor a 0x80000000 < 2 ^ 32
flip-lt a h = bit_xor-lt 32 a 0x80000000 h (omega arith)

abbrev pub less_mask : ℕ → ℕ → ℕ → ℕ
less_mask m a b = if ltb a b then m else 0

gt_flipped :
    (a b : ℕ)
    → a < 2 ^ 32
    → b < 2 ^ 32
    → gt32 (bit_xor b 0x80000000) (bit_xor a 0x80000000) ≡ less_mask ones32 a b
gt_flipped a b h k = rw (flip_rank a h, flip_rank b k)

lane :
    (a1 a0 b1 b0 : ℕ)
    → a0 < 2 ^ 32
    → b0 < 2 ^ 32
    → bit_or (less_mask ones32 a1 b1) (bit_and (eq32 b1 a1) (less_mask ones32 a0 b0))
      ≡ less_mask ones32 (a1 * 2 ^ 32 + a0) (b1 * 2 ^ 32 + b0)
lane a1 a0 b1 b0 h k = ground arith

lane-lt : (m a b : ℕ) → m < 2 ^ 32 → less_mask m a b < 2 ^ 32
lane-lt m a b h = ground arith

lanewise-of_dwords :
    (f : ℕ → ℕ → ℕ) (x y : Dwords)
    → IsDwords x
    → IsDwords y
    → lanewise f (of_dwords x) (of_dwords y) ≡ of_dwords (zip_dwords f x y)
unfolding lanewise
lanewise-of_dwords f x y h k = rw (to_dwords-of_dwords x h, to_dwords-of_dwords y k)

abbrev signs : Dwords
signs = record { d3 = 0x80000000; d2 = 0x80000000; d1 = 0x80000000; d0 = 0x80000000 }

signs-IsDwords : IsDwords signs
signs-IsDwords = omega arith

flip_signs :
    (x : Dwords)
    → IsDwords x
    → lanewise bit_xor (of_dwords x) (of_dwords signs) ≡ of_dwords (zip_dwords bit_xor x signs)
flip_signs x h = lanewise-of_dwords bit_xor x signs h signs-IsDwords

flip-IsDwords : (x : Dwords) → IsDwords x → IsDwords (zip_dwords bit_xor x signs)
flip-IsDwords x h = (flip-lt x.d3 h.0, flip-lt x.d2 h.1, flip-lt x.d1 h.2, flip-lt x.d0 h.3)

gt_signs :
    (x y : Dwords)
    → IsDwords x
    → IsDwords y
    → lanewise gt32
        (of_dwords (zip_dwords bit_xor y signs))
        (of_dwords (zip_dwords bit_xor x signs))
      ≡ of_dwords (zip_dwords (less_mask ones32) x y)
gt_signs x y h k =
    lanewise-of_dwords gt32 _ _ (flip-IsDwords y k) (flip-IsDwords x h)
    ∙ rw (
      gt_flipped x.d3 y.d3 h.0 k.0,
      gt_flipped x.d2 y.d2 h.1 k.1,
      gt_flipped x.d1 y.d1 h.2 k.2,
      gt_flipped x.d0 y.d0 h.3 k.3,
    )

equal_lanes :
    (x y : Dwords)
    → IsDwords x
    → IsDwords y
    → lanewise eq32 (of_dwords y) (of_dwords x) ≡ of_dwords (zip_dwords eq32 y x)
equal_lanes x y h k = lanewise-of_dwords eq32 y x k h

abbrev mask_lanes : Dwords → Dwords → Dwords
mask_lanes = zip_dwords (less_mask ones32)

mask-IsDwords : (x y : Dwords) → IsDwords (mask_lanes x y)
mask-IsDwords x y = (
  lane-lt ones32 x.d3 y.d3 (omega arith),
  lane-lt ones32 x.d2 y.d2 (omega arith),
  lane-lt ones32 x.d1 y.d1 (omega arith),
  lane-lt ones32 x.d0 y.d0 (omega arith),
)

eq32-lt : (a b : ℕ) → eq32 a b < 2 ^ 32
eq32-lt a b = ground arith

equal-IsDwords : (x y : Dwords) → IsDwords (zip_dwords eq32 x y)
equal-IsDwords x y = (eq32-lt x.d3 y.d3, eq32-lt x.d2 y.d2, eq32-lt x.d1 y.d1, eq32-lt x.d0 y.d0)

abbrev even_up : Dwords → Dwords
even_up x = record { d3 = x.d2; d2 = x.d2; d1 = x.d0; d0 = x.d0 }

shuffle_low : (x : Dwords) → IsDwords x → shuffle_a0 (of_dwords x) ≡ of_dwords (even_up x)
unfolding shuffle_a0
shuffle_low x h = rw (to_dwords-of_dwords x h)

shuffle_high :
    (x : Dwords)
    → IsDwords x
    → shuffle_f5 (of_dwords x) ≡ of_dwords (record { d3 = x.d3; d2 = x.d3; d1 = x.d1; d0 = x.d1 })
unfolding shuffle_f5
shuffle_high x h = rw (to_dwords-of_dwords x h)

and_eq-lt : (a b c d : ℕ) → bit_and (eq32 a b) (less_mask ones32 c d) < 2 ^ 32
and_eq-lt a b c d = ground arith

or_and-lt :
    (a b c d e f : ℕ)
    → bit_or (less_mask ones32 a b) (bit_and (eq32 c d) (less_mask ones32 e f)) < 2 ^ 32
or_and-lt a b c d e f = ground arith

abbrev eqbig_lanes : Dwords → Dwords → Dwords
eqbig_lanes x y = zip_dwords bit_and (zip_dwords eq32 y x) (even_up (mask_lanes x y))

abbrev hibig_lanes : Dwords → Dwords → Dwords
hibig_lanes x y = zip_dwords bit_or (mask_lanes x y) (eqbig_lanes x y)

even_up-IsDwords : (x y : Dwords) → IsDwords (even_up (mask_lanes x y))
even_up-IsDwords x y = let m = mask-IsDwords x y in (m.1, m.1, m.3, m.3)

eqbig-IsDwords : (x y : Dwords) → IsDwords (eqbig_lanes x y)
eqbig-IsDwords x y = (
  and_eq-lt y.d3 x.d3 x.d2 y.d2,
  and_eq-lt y.d2 x.d2 x.d2 y.d2,
  and_eq-lt y.d1 x.d1 x.d0 y.d0,
  and_eq-lt y.d0 x.d0 x.d0 y.d0,
)

hibig-IsDwords : (x y : Dwords) → IsDwords (hibig_lanes x y)
hibig-IsDwords x y = (
  or_and-lt x.d3 y.d3 y.d3 x.d3 x.d2 y.d2,
  or_and-lt x.d2 y.d2 y.d2 x.d2 x.d2 y.d2,
  or_and-lt x.d1 y.d1 y.d1 x.d1 x.d0 y.d0,
  or_and-lt x.d0 y.d0 y.d0 x.d0 x.d0 y.d0,
)

lessthan_lanes :
    (x y : Dwords)
    → IsDwords x
    → IsDwords y
    → unsigned_lessthan (of_dwords x) (of_dwords y) ≡ shuffle_f5 (of_dwords (hibig_lanes x y))
unfolding unsigned_lessthan xor_si128 and_si128 or_si128 cmpeq_epi32 cmpgt_epi32 set1_epi32
lessthan_lanes x y h k = rw (
  flip_signs y k,
  flip_signs x h,
  gt_signs x y h k,
  equal_lanes x y h k,
  shuffle_low (mask_lanes x y) (mask-IsDwords x y),
  lanewise-of_dwords bit_and (zip_dwords eq32 y x) (even_up (mask_lanes x y)) (equal-IsDwords y x)
      (even_up-IsDwords x y),
  lanewise-of_dwords bit_or (mask_lanes x y) (eqbig_lanes x y) (mask-IsDwords x y)
      (eqbig-IsDwords x y),
)

-- All ones in a 64-bit lane.
abbrev pub ones64 : ℕ
ones64 = 0xffffffffffffffff

double_mask :
    (a b c d : ℕ) (m : ℕ)
    → m ≡ less_mask ones32 (a * 2 ^ 32 + b) (c * 2 ^ 32 + d)
    → m * 2 ^ 32 + m ≡ less_mask ones64 (a * 2 ^ 32 + b) (c * 2 ^ 32 + d)
double_mask a b c d m e = ground arith

lessthan_blocks :
    (x y : Dwords)
    → IsDwords x
    → IsDwords y
    → unsigned_lessthan (of_dwords x) (of_dwords y)
      ≡ make_block
          (less_mask ones64 (x.d3 * 2 ^ 32 + x.d2) (y.d3 * 2 ^ 32 + y.d2))
          (less_mask ones64 (x.d1 * 2 ^ 32 + x.d0) (y.d1 * 2 ^ 32 + y.d0))
unfolding of_dwords
lessthan_blocks x y h k =
    let high = double_mask x.d3 x.d2 y.d3 y.d2 _ (lane x.d3 x.d2 y.d3 y.d2 h.1 k.1) in
    let low = double_mask x.d1 x.d0 y.d1 y.d0 _ (lane x.d1 x.d0 y.d1 y.d0 h.3 k.3) in
    lessthan_lanes x y h k
    ∙ shuffle_high (hibig_lanes x y) (hibig-IsDwords x y)
    ∙ ap₂ make_block high low

split_join : (n : ℕ) → n / 2 ^ 32 * 2 ^ 32 + n % 2 ^ 32 ≡ n
split_join n = omega arith

-- Each 64-bit lane of the result of `unsigned_lessthan` is all ones if the first argument's lane
-- is less than the second's, else zero.
pub unsigned_lessthan_lanes :
    (a b : Block)
    → IsBlock a
    → IsBlock b
    → unsigned_lessthan a b
      ≡ make_block (less_mask ones64 a.high b.high) (less_mask ones64 a.low b.low)
unfolding to_dwords
unsigned_lessthan_lanes a b h k =
    rw
      (
        of_dwords-to_dwords a,
        of_dwords-to_dwords b,
        split_join a.high,
        split_join b.high,
        split_join a.low,
        split_join b.low,
      )
      at
      (lessthan_blocks (to_dwords a) (to_dwords b) (to_dwords-IsDwords a h)
        (to_dwords-IsDwords b k))
