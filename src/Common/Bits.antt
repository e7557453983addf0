-- ===== src/Common/Bits.antt =====
-- The laws of `bit_xor` and `bit_and` at variables, from the digit recursion that defines them.
use Prim.Native.Nat.{
  ℕ, zero, suc, ◌+◌, ◌-◌, ◌*◌, ◌/◌, ◌%◌, ◌^◌, ◌≤◌, ◌<◌, min, bit_xor, bit_and, digits, differ,
  bitwise, bit_xor-bitwise, bit_and-bitwise, bit_or, bit_or-bitwise, max,
}
use mathlib.Core.Path.{◌≡◌, refl, ◌∙◌, ap}
use native.Mathlib.Nat.{pow-suc, le_refl}
use native.Mathlib.Omega.{arith}

-- `digits` recurses on fuel: what exceeds the first argument changes nothing.
module _ (rest : ℕ → ℕ) (op : ℕ → ℕ → ℕ) where
  one_more : (fuel x y : ℕ) → x ≤ fuel → digits rest op (suc fuel) x y ≡ digits rest op fuel x y
  one_more zero zero y h = refl
  one_more zero (suc x) y h = absurd (omega arith)
  one_more (suc fuel) zero y h = refl
  one_more (suc fuel) (suc x) y h =
      ap (λ (v : ℕ). v * 2 + op (suc x % 2) (y % 2))
        (one_more fuel (suc x / 2) (y / 2) (omega arith))

  surplus : (extra fuel x y : ℕ) → fuel ≡ x + extra → digits rest op fuel x y ≡ digits rest op x x y
  surplus zero fuel x y e =
      let same : fuel ≡ x = omega (arith, e) in ap (λ (n : ℕ). digits rest op n x y) same
  surplus (suc extra) zero x y e = absurd (omega (arith, e))
  surplus (suc extra) (suc fuel) x y e =
      one_more fuel x y (omega (arith, e)) ∙ surplus extra fuel x y (omega (arith, e))

  lowest_digit :
      (x y : ℕ)
      → bitwise rest op (suc x) y ≡ bitwise rest op (suc x / 2) (y / 2) * 2 + op (suc x % 2) (y % 2)
  lowest_digit x y =
      ap (λ (v : ℕ). v * 2 + op (suc x % 2) (y % 2))
        (surplus (x - suc x / 2) x (suc x / 2) (y / 2) (omega arith))

pub bit_and_step : (x y : ℕ) → bit_and x y ≡ bit_and (x / 2) (y / 2) * 2 + min (x % 2) (y % 2)
bit_and_step zero y = simp bit_and-bitwise (omega arith)
bit_and_step (suc x) y = simp bit_and-bitwise (lowest_digit (λ v. 0) min x y)

differ-sub : (x y : ℕ) → differ x y ≡ (x - y) + (y - x)
differ-sub zero y = omega arith
differ-sub (suc x) zero = omega arith
differ-sub (suc x) (suc y) = omega (arith, differ-sub x y)

pub bit_xor_step : (a b : ℕ) → bit_xor a b ≡ bit_xor (a / 2) (b / 2) * 2 + (a % 2 + b % 2) % 2
bit_xor_step zero b = simp bit_xor-bitwise (omega arith)
bit_xor_step (suc a) b =
    simp bit_xor-bitwise
      (lowest_digit (λ y. y) differ a b ∙ omega (arith, differ-sub (suc a % 2) (b % 2)))

-- The laws below hold of all numbers; each is an induction on a bound of the arguments.
zero-bit_xor_fuel : (n b : ℕ) → b ≤ n → bit_xor 0 b ≡ b
zero-bit_xor_fuel zero zero h = refl
zero-bit_xor_fuel zero (suc b) h = absurd (omega arith)
zero-bit_xor_fuel (suc n) b h =
    omega (arith, bit_xor_step 0 b, zero-bit_xor_fuel n (b / 2) (omega arith))

pub zero-bit_xor : (b : ℕ) → bit_xor 0 b ≡ b
zero-bit_xor b = zero-bit_xor_fuel b b (le_refl b)

bit_xor_self_fuel : (n a : ℕ) → a ≤ n → bit_xor a a ≡ 0
bit_xor_self_fuel zero zero h = refl
bit_xor_self_fuel zero (suc a) h = absurd (omega arith)
bit_xor_self_fuel (suc n) a h =
    omega (arith, bit_xor_step a a, bit_xor_self_fuel n (a / 2) (omega arith))

pub bit_xor_self : (a : ℕ) → bit_xor a a ≡ 0
bit_xor_self a = bit_xor_self_fuel a a (le_refl a)

bit_xor_comm_fuel : (n a b : ℕ) → a ≤ n → b ≤ n → bit_xor a b ≡ bit_xor b a
bit_xor_comm_fuel zero zero zero h k = refl
bit_xor_comm_fuel zero (suc a) b h k = absurd (omega arith)
bit_xor_comm_fuel zero zero (suc b) h k = absurd (omega arith)
bit_xor_comm_fuel (suc n) a b h k = omega (
  arith,
  bit_xor_step a b,
  bit_xor_step b a,
  bit_xor_comm_fuel n (a / 2) (b / 2) (omega arith) (omega arith),
)

pub bit_xor_comm : (a b : ℕ) → bit_xor a b ≡ bit_xor b a
bit_xor_comm a b = bit_xor_comm_fuel (a + b) a b (omega arith) (omega arith)

bit_xor_digits :
    (a b : ℕ)
    → (bit_xor a b / 2 ≡ bit_xor (a / 2) (b / 2)) × (bit_xor a b % 2 ≡ (a % 2 + b % 2) % 2)
bit_xor_digits a b = omega (arith, bit_xor_step a b)

bit_xor_assoc_fuel :
    (n a b c : ℕ) → a ≤ n → b ≤ n → c ≤ n → bit_xor (bit_xor a b) c ≡ bit_xor a (bit_xor b c)
bit_xor_assoc_fuel zero zero zero zero h k l = refl
bit_xor_assoc_fuel zero (suc a) b c h k l = absurd (omega arith)
bit_xor_assoc_fuel zero zero (suc b) c h k l = absurd (omega arith)
bit_xor_assoc_fuel zero zero zero (suc c) h k l = absurd (omega arith)
bit_xor_assoc_fuel (suc n) a b c h k l =
    let left = bit_xor_step (bit_xor a b) c in
    let right = bit_xor_step a (bit_xor b c) in
    let ih =
      bit_xor_assoc_fuel n (a / 2) (b / 2) (c / 2) (omega arith) (omega arith) (omega arith) in
    left
    ∙ rw ((bit_xor_digits a b).0, ih, ← (bit_xor_digits b c).0)
        (omega (arith, bit_xor_step a (bit_xor b c), bit_xor_digits a b, bit_xor_digits b c))

pub bit_xor_assoc : (a b c : ℕ) → bit_xor (bit_xor a b) c ≡ bit_xor a (bit_xor b c)
bit_xor_assoc a b c = bit_xor_assoc_fuel (a + b + c) a b c (omega arith) (omega arith) (omega arith)

-- What is masked twice by one value is the value itself.
pub bit_xor_cancel : (a b : ℕ) → bit_xor (bit_xor a b) b ≡ a
bit_xor_cancel a b =
    bit_xor_assoc a b b ∙ ap (bit_xor a) (bit_xor_self b) ∙ bit_xor_comm a 0 ∙ zero-bit_xor a

pub bit_xor-lt : (k a b : ℕ) → a < 2 ^ k → b < 2 ^ k → bit_xor a b < 2 ^ k
bit_xor-lt zero zero zero h l = omega arith
bit_xor-lt zero (suc a) b h l = absurd (omega arith)
bit_xor-lt zero zero (suc b) h l = absurd (omega arith)
bit_xor-lt (suc k) a b h l = omega (
  arith,
  bit_xor_step a b,
  pow-suc 2 k,
  bit_xor-lt k (a / 2) (b / 2) (omega (arith, pow-suc 2 k)) (omega (arith, pow-suc 2 k)),
)

-- To flip the highest of k + 1 bits is to add 2 ^ k modulo 2 ^ (k + 1).
pub bit_xor_high_bit :
    (k a : ℕ)
    → (a < 2 ^ k → bit_xor a (2 ^ k) ≡ a + 2 ^ k)
      × (2 ^ k ≤ a → a < 2 * 2 ^ k → bit_xor a (2 ^ k) + 2 ^ k ≡ a)
bit_xor_high_bit zero a = (
  λ h. omega (arith, bit_xor_step a 1, bit_xor_comm (a / 2) 0, zero-bit_xor (a / 2)),
  λ h l. omega (arith, bit_xor_step a 1, bit_xor_comm (a / 2) 0, zero-bit_xor (a / 2)),
)
bit_xor_high_bit (suc k) a =
    let ih = bit_xor_high_bit k (a / 2) in
    let half : 2 ^ suc k / 2 ≡ 2 ^ k = omega (arith, pow-suc 2 k) in
    let step : bit_xor a (2 ^ suc k) ≡ bit_xor (a / 2) (2 ^ k) * 2 + (a % 2 + 2 ^ suc k % 2) % 2 =
      rw half at (bit_xor_step a (2 ^ suc k)) in
    (
      λ h. omega (arith, step, pow-suc 2 k, ih.0 (omega (arith, pow-suc 2 k))),
      λ h l. omega (
        arith,
        step,
        pow-suc 2 k,
        ih.1 (omega (arith, pow-suc 2 k)) (omega (arith, pow-suc 2 k)),
      ),
    )

-- To flip all of k bits is to subtract from the largest number of k bits.
pub bit_xor_ones : (k a : ℕ) → a < 2 ^ k → bit_xor a (2 ^ k - 1) + a ≡ 2 ^ k - 1
bit_xor_ones zero zero h = refl
bit_xor_ones zero (suc a) h = absurd (omega arith)
bit_xor_ones (suc k) a h =
    let half : (2 ^ suc k - 1) / 2 ≡ 2 ^ k - 1 = omega (arith, pow-suc 2 k) in
    let step : bit_xor a (2 ^ suc k - 1)
        ≡ bit_xor (a / 2) (2 ^ k - 1) * 2 + (a % 2 + (2 ^ suc k - 1) % 2) % 2 =
      rw half at (bit_xor_step a (2 ^ suc k - 1)) in
    omega (arith, step, pow-suc 2 k, bit_xor_ones k (a / 2) (omega (arith, pow-suc 2 k)))

bit_or_step : (x y : ℕ) → bit_or x y ≡ bit_or (x / 2) (y / 2) * 2 + max (x % 2) (y % 2)
bit_or_step zero y = simp bit_or-bitwise (omega arith)
bit_or_step (suc x) y = simp bit_or-bitwise (lowest_digit (λ v. v) max x y)

-- To set bits above all that are there is to add them.
pub bit_or_above : (n a v : ℕ) → a < 2 ^ n → bit_or a (v * 2 ^ n) ≡ a + v * 2 ^ n
bit_or_above zero zero v h = simp bit_or-bitwise (omega arith)
bit_or_above zero (suc a) v h = absurd (omega arith)
bit_or_above (suc n) a v h =
    let half : v * 2 ^ suc n / 2 ≡ v * 2 ^ n = omega (arith, ap (λ (x : ℕ). v * x) (pow-suc 2 n)) in
    let even : v * 2 ^ suc n % 2 ≡ 0 = omega (arith, ap (λ (x : ℕ). v * x) (pow-suc 2 n)) in
    let step = rw (half, even) at (bit_or_step a (v * 2 ^ suc n)) in
    omega (
      arith,
      step,
      pow-suc 2 n,
      ap (λ (x : ℕ). v * x) (pow-suc 2 n),
      bit_or_above n (a / 2) v (omega (arith, pow-suc 2 n)),
    )
