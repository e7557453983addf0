-- ===== src/Equality/Beaver.antt =====
-- Multiplication of shared bits by one triple, and the bits of bytes: what the AND step of
-- triangle_counting/equality.h rests on.
use sectric.Common.{
  ℕ, zero, suc, ◌/◌, ◌%◌, ◌≡◌, refl, Bool, false, xor, ◌&&◌, ◌==◌, bit_xor, bit_and, arith,
}
use sectric.Common.Bits.{bit_xor_step, bit_and_step}

-- Bit `t` of a number.
unfoldable pub test_bit : ℕ → ℕ → Bool
test_bit x zero = x % 2 == 1
test_bit x (suc t) = test_bit (x / 2) t

pub test_bit-xor : (t a b : ℕ) → test_bit (bit_xor a b) t ≡ xor (test_bit a t) (test_bit b t)
unfolding test_bit xor
test_bit-xor zero a b = ground (arith, bit_xor_step a b)
test_bit-xor (suc t) a b =
    let half : bit_xor a b / 2 ≡ bit_xor (a / 2) (b / 2) = omega (arith, bit_xor_step a b) in
    rw half (test_bit-xor t (a / 2) (b / 2))

pub test_bit-and : (t a b : ℕ) → test_bit (bit_and a b) t ≡ test_bit a t && test_bit b t
unfolding test_bit
test_bit-and zero a b = ground (arith, bit_and_step a b)
test_bit-and (suc t) a b =
    let half : bit_and a b / 2 ≡ bit_and (a / 2) (b / 2) = omega (arith, bit_and_step a b) in
    rw half (test_bit-and t (a / 2) (b / 2))

pub test_bit-zero : (t : ℕ) → test_bit 0 t ≡ false
unfolding test_bit
test_bit-zero zero = refl
test_bit-zero (suc t) = test_bit-zero t

-- The shares of a product: each party opens the other's masked bits and its own.
pub beaver :
    (x y x' y' a b c a' b' c' : Bool)
    → xor c c' ≡ xor a a' && xor b b'
    → let e = xor (xor a' x') (xor a x) in
      let f = xor (xor b' y') (xor b y) in
      let e' = xor (xor a x) (xor a' x') in
      let f' = xor (xor b y) (xor b' y') in
      xor
        (xor (xor (xor (e && f) (f && a)) (e && b)) c)
        (xor (xor (xor false (f' && a')) (e' && b')) c')
      ≡ xor x x' && xor y y'
unfolding xor
beaver x y x' y' a b c a' b' c' h = ground arith
