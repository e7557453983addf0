-- ===== src/Common/Masks.antt =====
-- Words under masks, and their low bits.
use Prim.Native.Nat.{ℕ, zero, suc, ◌/◌, ◌%◌, ◌^◌, bit_xor}
use mathlib.Core.Path.{◌≡◌, sym, ap, ap₂, ◌∙◌}
use native.Mathlib.Nat.{mod-one}
use native.Mathlib.Omega.{arith}
use sectric.Common.Bits.{
  bit_xor_step, bit_xor_comm, bit_xor_assoc, bit_xor_self, bit_xor_cancel, zero-bit_xor,
}
use sectric.Common.Places.{digits_mod}

-- The low bits of a masked value are its masked low bits.
pub bit_xor_mod : (k a b : ℕ) → bit_xor a b % 2 ^ k ≡ bit_xor (a % 2 ^ k) (b % 2 ^ k)
bit_xor_mod zero a b = mod-one (bit_xor a b) ∙ sym (ap₂ bit_xor (mod-one a) (mod-one b))
bit_xor_mod (suc k) a b =
    let step = bit_xor_step a b in
    let left = digits_mod k a in
    let right = digits_mod k b in
    let halves : bit_xor (a % 2 ^ suc k / 2) (b % 2 ^ suc k / 2)
        ≡ bit_xor (a / 2 % 2 ^ k) (b / 2 % 2 ^ k) =
      ap₂ bit_xor (omega (arith, left)) (omega (arith, right)) in
    let half : bit_xor a b / 2 ≡ bit_xor (a / 2) (b / 2) = omega (arith, step) in
    omega (
      arith,
      digits_mod k (bit_xor a b),
      bit_xor_step (a % 2 ^ suc k) (b % 2 ^ suc k),
      halves,
      step,
      left,
      right,
      ap (λ (x : ℕ). x % 2 ^ k) half,
      bit_xor_mod k (a / 2) (b / 2),
    )

pub bit_xor_unmask : (m x : ℕ) → bit_xor m (bit_xor m x) ≡ x
bit_xor_unmask m x =
    bit_xor_comm m (bit_xor m x)
    ∙ ap (λ (y : ℕ). bit_xor y m) (bit_xor_comm m x)
    ∙ bit_xor_cancel x m

-- A word hidden under `c` and opened with `m` is itself on its low bits only if the masks agree
-- there.
pub bit_xor_mask_apart :
    (k m c x : ℕ) → bit_xor m (bit_xor c x) % 2 ^ k ≡ x % 2 ^ k → m % 2 ^ k ≡ c % 2 ^ k
bit_xor_mask_apart k m c x same =
    let low : ℕ → ℕ = λ y. y % 2 ^ k in
    let opened : bit_xor (bit_xor (low m) (low c)) (low x) ≡ low x =
      bit_xor_assoc (low m) (low c) (low x)
      ∙ ap (bit_xor (low m)) (sym (bit_xor_mod k c x))
      ∙ sym (bit_xor_mod k m (bit_xor c x))
      ∙ same in
    let none : bit_xor (low m) (low c) ≡ 0 =
      sym (bit_xor_cancel (bit_xor (low m) (low c)) (low x))
      ∙ ap (λ (y : ℕ). bit_xor y (low x)) opened
      ∙ bit_xor_self (low x) in
    sym (bit_xor_cancel (low m) (low c))
    ∙ ap (λ (y : ℕ). bit_xor y (low c)) none
    ∙ zero-bit_xor (low c)
