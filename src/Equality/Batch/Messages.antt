-- ===== src/Equality/Batch/Messages.antt =====
-- The messages of a batch in triangle_counting/batch_equality.h: one bit for each word, and the
-- extraction of the bits in place.
use sectric.Common.{
  ℕ, zero, suc, ◌+◌, ◌-◌, ◌*◌, ◌/◌, ◌%◌, ◌^◌, ◌<◌, ◌≤◌, ◌≡◌, refl, sym, ap, subst, ◌∙◌, Bool, true,
  false, ◌==◌, if◌then◌else◌, arith,
}
use native.Mathlib.Decide.{ℕ_discrete}
use native.Mathlib.Nat.{
  add-mul-div_left, pow-suc, one-le-pow, pow-le-pow_right, mod-eq_of_lt, div-eq_of_lt,
}
use sectric.Common.Bits.{bit_or_above}
use sectric.Common.Loops.{for_each}
use sectric.Common.Places.{pow-add}
use sectric.Equality.Batch.{message}

-- To add above bit `n` changes no lower bit.
low_bit : (n m a v : ℕ) → m < n → (a + v * 2 ^ n) / 2 ^ m % 2 ≡ a / 2 ^ m % 2
low_bit n m a v h =
    let d = n - m - 1 in
    let split : v * 2 ^ n ≡ 2 ^ m * (v * (2 * 2 ^ d)) =
      let parts : m + (1 + d) ≡ n = omega arith in
      let power : 2 ^ n ≡ 2 ^ m * (2 * 2 ^ d) =
        ap (λ (x : ℕ). 2 ^ x) (sym parts)
        ∙ pow-add 2 m (1 + d)
        ∙ ap (λ (x : ℕ). 2 ^ m * x) (pow-add 2 1 d) in
      ap (λ (x : ℕ). v * x) power ∙ omega arith in
    let divided : (a + v * 2 ^ n) / 2 ^ m ≡ a / 2 ^ m + v * (2 * 2 ^ d) =
      ap (λ (x : ℕ). (a + x) / 2 ^ m) split
      ∙ add-mul-div_left a (v * (2 * 2 ^ d)) (one-le-pow m 2 (omega arith)) in
    omega (arith, divided)

high_bit : (n a v : ℕ) → a < 2 ^ n → v < 2 → (a + v * 2 ^ n) / 2 ^ n % 2 ≡ v
high_bit n a v h l =
    let turned : a + v * 2 ^ n ≡ a + 2 ^ n * v = omega arith in
    let divided : (a + v * 2 ^ n) / 2 ^ n ≡ v =
      ap (λ (x : ℕ). x / 2 ^ n) turned
      ∙ add-mul-div_left a v (one-le-pow n 2 (omega arith))
      ∙ ap (λ (x : ℕ). x + v) (div-eq_of_lt h)
      ∙ omega arith in
    omega (arith, divided)

abbrev bit_of : Bool → ℕ
bit_of b = if b then 1 else 0

bit_of-lt : (b : Bool) → bit_of b < 2
bit_of-lt true = omega arith
bit_of-lt false = omega arith

bit_of_test : (b : Bool) → (bit_of b == 1) ≡ b
bit_of_test true = refl
bit_of_test false = refl

-- One round of the loop adds its bit.
message_round :
    (n : ℕ) (bits : ℕ → Bool)
    → n < 8
    → message n bits < 2 ^ n
    → message (suc n) bits ≡ message n bits + bit_of (bits n) * 2 ^ n
unfolding message for_each
message_round n bits h below =
    let acc = message n bits in
    let v = bit_of (bits n) in
    let added = bit_or_above n acc v below in
    let room : 2 ^ suc n ≤ 2 ^ 8 = pow-le-pow_right (omega arith) h in
    let top : v * 2 ^ n ≤ 2 ^ n = elim (bits n) as (λ b. bit_of b * 2 ^ n ≤ 2 ^ n) [
      | true ↦ omega arith
      | false ↦ omega arith
    ] in
    let small : acc + v * 2 ^ n < 256 = omega (arith, room, top, pow-suc 2 n, below) in
    ap (λ (x : ℕ). x % 256) added ∙ mod-eq_of_lt small

-- A message of at most eight bits has the bits that it was made of.
pub message_bits :
    (n : ℕ) (bits : ℕ → Bool)
    → n ≤ 8
    → (message n bits < 2 ^ n) × ((m : ℕ) → m < n → message n bits / 2 ^ m % 2 ≡ bit_of (bits m))
unfolding message for_each
message_bits zero bits h = (omega arith, λ m l. elim l [ ])
message_bits (suc n) bits h =
    let (below, found) = message_bits n bits (omega arith) in
    let v = bit_of (bits n) in
    let round = message_round n bits h below in
    let top : v * 2 ^ n ≤ 2 ^ n = elim (bits n) as (λ b. bit_of b * 2 ^ n ≤ 2 ^ n) [
      | true ↦ omega arith
      | false ↦ omega arith
    ] in
    (
      omega (arith, round, top, below, pow-suc 2 n),
      λ m l. elim (ℕ_discrete m n) [
        | yes same ↦
            subst (λ k. message (suc n) bits / 2 ^ k % 2 ≡ bit_of (bits k)) (sym same)
              (ap (λ (x : ℕ). x / 2 ^ n % 2) round
                ∙ high_bit n (message n bits) v below (bit_of-lt (bits n)))
        | no other ↦
            let lower : m < n = omega (arith, other, l) in
            ap (λ (x : ℕ). x / 2 ^ m % 2) round
            ∙ low_bit n m (message n bits) v lower
            ∙ found m lower
      ],
    )

pub message_test :
    (n : ℕ) (bits : ℕ → Bool) (m : ℕ) → n ≤ 8 → m < n → (message n bits / 2 ^ m % 2 == 1) ≡ bits m
message_test n bits m h l =
    ap (λ (x : ℕ). x == 1) ((message_bits n bits h).1 m l) ∙ bit_of_test (bits m)
