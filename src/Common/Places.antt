-- ===== src/Common/Places.antt =====
-- Places in rows of a width, and the remainder of a product: the digits of a number.
use Prim.Native.Nat.{ℕ, zero, suc, ◌+◌, ◌-◌, ◌*◌, ◌/◌, ◌%◌, ◌^◌, ◌≤◌, ◌<◌, min, bit_and, ◌∣◌}
use mathlib.Core.Path.{◌≡◌, refl, sym, ap, subst, ◌∙◌}
use mathlib.Core.Bool.{◌&&◌}
use native.Mathlib.Decide.{dec_lt, ℕ_discrete}
use native.Mathlib.Nat.{
  pow-suc, pow-zero, div-div-eq-div-mul, div-add-mod, mod-lt, mod-one, mul-le-mul_right, zero-add,
  mod-mod_of_dvd, one-le-pow, dvd-mul_left,
}
use native.Mathlib.Omega.{arith}
use sectric.Common.Bits.{bit_and_step}
use sectric.Common.Tests.{◌==◌}

-- Rows of width `w` do not overlap.
pub row_unique : (a b k k' w : ℕ) → k < w → k' < w → a * w + k ≡ b * w + k' → a ≡ b
row_unique a b k k' w h h' e = elim (dec_lt a b) [
  | yes below ↦ absurd (omega (arith, mul-le-mul_right w below))
  | no above ↦ elim (dec_lt b a) [
    | yes below ↦ absurd (omega (arith, mul-le-mul_right w below))
    | no beyond ↦ omega arith
  ]
]

pub pow-add : (n a b : ℕ) → n ^ (a + b) ≡ n ^ a * n ^ b
pow-add n zero b = rw (zero-add b, pow-zero n) (omega arith)
pow-add n (suc a) b =
    let shift : suc a + b ≡ suc (a + b) = omega arith in
    rw (shift, pow-suc n (a + b), pow-suc n a, pow-add n a b) (omega arith)

-- The remainder of a product, digit by digit.
pub mod-mul : (a p q : ℕ) → 0 < p → a % (p * q) ≡ a % p + p * (a / p % q)
mod-mul a p q h =
    let upper : p * (a / p) ≡ p * (q * (a / p / q)) + p * (a / p % q) =
      ap (λ (x : ℕ). p * x) (sym (div-add-mod (a / p) q)) ∙ omega arith in
    let whole : p * q * (a / p / q) + a % (p * q) ≡ a =
      ap (λ (x : ℕ). p * q * x + a % (p * q)) (div-div-eq-div-mul a p q) ∙ div-add-mod a (p * q) in
    let regroup : p * q * (a / p / q) ≡ p * (q * (a / p / q)) = omega arith in
    omega (arith, upper, whole, regroup, div-add-mod a p)

-- Two remainders of a product are equal where the lower and the upper parts are.
pub mod_split :
    (a b p q : ℕ)
    → 0 < p
    → (a % p == b % p) && (a / p % q == b / p % q) ≡ (a % (p * q) == b % (p * q))
mod_split a b p q h =
    let lower = mod-mul a p q h in
    let upper = mod-mul b p q h in
    elim (ℕ_discrete (a % p) (b % p)) [
      | yes same ↦ elim (ℕ_discrete (a / p % q) (b / p % q)) [
        | yes also ↦
            let scaled = ap (λ (x : ℕ). p * x) also in
            ground (arith, same, also, scaled, lower, upper)
        | no differs ↦ elim (ℕ_discrete (a % (p * q)) (b % (p * q))) [
          | yes equal ↦ absurd (
              differs (
                row_unique (a / p % q) (b / p % q) (a % p) (b % p) p (mod-lt a h) (mod-lt b h)
                  (omega (arith, equal, lower, upper))))
          | no apart ↦ ground (arith, differs, apart)
        ]
      ]
      | no differs ↦ elim (ℕ_discrete (a % (p * q)) (b % (p * q))) [
        | yes equal ↦
            let digits =
              row_unique (a / p % q) (b / p % q) (a % p) (b % p) p (mod-lt a h) (mod-lt b h)
                (omega (arith, equal, lower, upper)) in
            let scaled = ap (λ (x : ℕ). p * x) digits in
            absurd (differs (omega (arith, equal, lower, upper, scaled)))
        | no apart ↦ ground (arith, differs, apart)
      ]
    ]

-- The low byte is enough for a digit of at most eight bits.
pub byte_mod : (k x : ℕ) → k ≤ 8 → x % 256 % 2 ^ k ≡ x % 2 ^ k
byte_mod k x h =
    let same : 8 - k + k ≡ 8 = omega arith in
    let whole : 2 ^ (8 - k) * 2 ^ k ≡ 256 =
      sym (pow-add 2 (8 - k) k) ∙ ap (λ (x : ℕ). 2 ^ x) same in
    mod-mod_of_dvd (2 ^ k) x (subst (λ n. 2 ^ k ∣ n) whole (dvd-mul_left (2 ^ k) (2 ^ (8 - k))))

bit_and_zero : (n a : ℕ) → a ≤ n → bit_and a 0 ≡ 0
bit_and_zero zero zero h = refl
bit_and_zero zero (suc a) h = absurd (omega arith)
bit_and_zero (suc n) a h = omega (arith, bit_and_step a 0, bit_and_zero n (a / 2) (omega arith))

pub digits_mod : (k a : ℕ) → a % 2 ^ suc k ≡ a % 2 + 2 * (a / 2 % 2 ^ k)
digits_mod k a =
    ap (λ (x : ℕ). a % x) (omega (arith, pow-suc 2 k)) ∙ mod-mul a 2 (2 ^ k) (omega arith)

-- To mask with k ones is to take the remainder.
pub bit_and_mask : (k a : ℕ) → bit_and a (2 ^ k - 1) ≡ a % 2 ^ k
bit_and_mask zero a = bit_and_zero a a (omega arith) ∙ sym (mod-one a)
bit_and_mask (suc k) a =
    let half : (2 ^ suc k - 1) / 2 ≡ 2 ^ k - 1 = omega (arith, pow-suc 2 k) in
    let step : bit_and a (2 ^ suc k - 1)
        ≡ bit_and (a / 2) (2 ^ k - 1) * 2 + min (a % 2) ((2 ^ suc k - 1) % 2) =
      rw half at (bit_and_step a (2 ^ suc k - 1)) in
    omega (
      arith,
      step,
      digits_mod k a,
      pow-suc 2 k,
      one-le-pow k 2 (omega arith),
      bit_and_mask k (a / 2),
    )
