-- ===== src/Equality/Setup/Digits.antt =====
-- The digits of `Equality` in triangle_counting/equality.h: what `configure` makes of its
-- arguments, and the comparison of words digit by digit.
use sectric.Common.{
  ℕ, zero, suc, ◌+◌, ◌-◌, ◌*◌, ◌/◌, ◌%◌, ◌^◌, ◌<◌, ◌≤◌, ◌≡◌, ◌≢◌, refl, sym, ap, ap₂, subst, ◌∙◌,
  ◌⊎◌, inl, inr, Bool, true, false, not, ◌==◌, ◌&&◌, if◌then◌else◌, ltb, ==_iff, arith,
}
use native.Mathlib.Nat.{
  div-div-eq-div-mul, div-add-mod, mod-lt, div-one, mod-one, one-le-pow, zero-add, pow-le-pow_right,
}
use native.Mathlib.Decide.{ℕ_discrete}
use sectric.Common.Places.{row_unique, pow-add, mod_split, byte_mod, bit_and_mask}
use sectric.Common.Run.{ok}
use sectric.Equality.Setup.{Config, configure, new, digit}
use sectric.Equality.Conj.{conj, conj-append, conj-cong}

-- What the constructor stores.
abbrev pub Stored : ℕ → ℕ → ℕ → Config → Type 0
Stored l beta n c =
    (c.l ≡ l)
    × (c.beta ≡ beta)
    × (c.num_cmps ≡ n)
    × (c.num_digits ≡ (l + beta - 1) / beta)
    × (c.r ≡ l % beta)
    × (c.mask_beta ≡ 2 ^ beta - 1)
    × (c.mask_r ≡ 2 ^ c.r - 1)
    × (c.beta_pow ≡ 2 ^ beta)

small_mask : (k : ℕ) → k < 8 → (2 ^ k - 1) % 256 ≡ 2 ^ k - 1
small_mask k h =
    let under : k ≤ 8 = omega arith in
    let bound : 2 ^ k ≤ 2 ^ 8 = pow-le-pow_right (omega arith) under in omega (arith, bound)

full_mask : (k : ℕ) → k ≤ 8 → (if k == 8 then 255 else (2 ^ k - 1) % 256) ≡ 2 ^ k - 1
full_mask k h = elim (ℕ_discrete k 8) [
  | yes same ↦ subst (λ j. (if j == 8 then 255 else (2 ^ j - 1) % 256) ≡ 2 ^ j - 1) (sym same) refl
  | no other ↦ let apart : (k == 8) ≡ false = ground arith in rw apart (small_mask k (omega arith))
]

-- For a radix of 1 to 8 bits and a length of at most 64 bits the constructor and `configure` end,
-- and store the number of digits, the length of the last one, and masks of exactly the radix's
-- and the last digit's length.
pub new-Stored :
    (l beta n : ℕ)
    → 0 < beta
    → beta ≤ 8
    → l ≤ 64
    → (c : Config) × (new l beta n ≡ ok c) × Stored l beta n c
unfolding new configure
new-Stored l zero n pos small short = absurd (omega arith)
new-Stored l (suc b) n pos small short =
    let radix : ltb 8 (suc b) ≡ false = ground arith in
    let length : ltb 64 l ≡ false = ground arith in
    let rest : l % suc b < 8 = omega (arith, mod-lt l pos) in
    rw (radix, length)
      (
        _,
        refl,
        (refl, refl, refl, refl, refl, full_mask (suc b) small, small_mask (l % suc b) rest, refl),
      )

abbrev pub field : ℕ → ℕ → ℕ → ℕ
field beta x i = x / 2 ^ (i * beta) % 2 ^ beta

module _ (beta : ℕ) where
  -- The whole digits of two words agree where the words agree on all their bits.
  pub conj_fields :
      (x y count lo : ℕ)
      → conj (λ i. field beta x i == field beta y i) lo count
        ≡ (x / 2 ^ (lo * beta) % 2 ^ (count * beta) == y / 2 ^ (lo * beta) % 2 ^ (count * beta))
  conj_fields x y zero lo =
      let none : zero * beta ≡ 0 = omega arith in
      rw none (
        sym (
          (==_iff (x / 2 ^ (lo * beta) % 1) (y / 2 ^ (lo * beta) % 1)).1
            (mod-one (x / 2 ^ (lo * beta)) ∙ sym (mod-one (y / 2 ^ (lo * beta))))))
  conj_fields x y (suc count) lo =
      let next : suc lo * beta ≡ lo * beta + beta = omega arith in
      let shifted : (z : ℕ) → z / 2 ^ (suc lo * beta) ≡ z / 2 ^ (lo * beta) / 2 ^ beta = λ z.
        ap (λ (e : ℕ). z / 2 ^ e) next
        ∙ ap (λ (e : ℕ). z / e) (pow-add 2 (lo * beta) beta)
        ∙ sym (div-div-eq-div-mul z (2 ^ (lo * beta)) (2 ^ beta)) in
      let width : 2 ^ (suc count * beta) ≡ 2 ^ beta * 2 ^ (count * beta) =
        ap (λ (e : ℕ). 2 ^ e) (omega arith) ∙ pow-add 2 beta (count * beta) in
      rw (conj_fields x y count (suc lo), shifted x, shifted y, width)
        (mod_split (x / 2 ^ (lo * beta)) (y / 2 ^ (lo * beta)) (2 ^ beta) (2 ^ (count * beta))
          (one-le-pow beta 2 (omega arith)))

-- A digit is a field of the word; the last one is as long as what is left.
module _ (l beta n : ℕ) (positive : 0 < beta) (small : beta ≤ 8) (c : Config)
    (stored : Stored l beta n c) where
  radix : c.beta ≡ beta
  radix = stored.1

  pub last_length : c.r ≡ l % beta
  last_length = stored.4

  mask : c.mask_beta ≡ 2 ^ beta - 1
  mask = stored.5

  mask_r : c.mask_r ≡ 2 ^ (l % beta) - 1
  mask_r = stored.6 ∙ ap (λ (x : ℕ). 2 ^ x - 1) last_length

  short : l % beta ≤ 8
  short = omega (arith, mod-lt l positive)

  digit_full :
      (word i : ℕ) → (i ≢ c.num_digits - 1) ⊎ (c.r ≡ 0) → digit c word i ≡ field beta word i
  unfolding digit
  digit_full word i full =
      let choice : i == c.num_digits - 1 && not (c.r == 0) ≡ false = ground (arith, full) in
      rw (choice, radix, mask) (bit_and_mask beta _ ∙ byte_mod beta _ small)

  digit_last :
      (word i : ℕ)
      → i ≡ c.num_digits - 1
      → c.r ≢ 0
      → digit c word i ≡ word / 2 ^ (i * beta) % 2 ^ (l % beta)
  unfolding digit
  digit_last word i last long =
      let choice : i == c.num_digits - 1 && not (c.r == 0) ≡ true = ground (arith, last, long) in
      rw (choice, radix, mask_r) (bit_and_mask (l % beta) _ ∙ byte_mod (l % beta) _ short)

  full_count : c.r ≡ 0 → c.num_digits ≡ l / beta
  full_count none =
      row_unique c.num_digits (l / beta) ((l + beta - 1) % beta) (beta - 1) beta
        (mod-lt (l + beta - 1) positive) (omega arith)
        (omega (
          arith,
          stored.3,
          last_length,
          div-add-mod l beta,
          div-add-mod (l + beta - 1) beta,
          ap (λ (x : ℕ). beta * x) stored.3,
        ))

  short_count : c.r ≢ 0 → c.num_digits ≡ suc (l / beta)
  short_count long =
      row_unique c.num_digits (suc (l / beta)) ((l + beta - 1) % beta) (l % beta - 1) beta
        (mod-lt (l + beta - 1) positive) (omega (arith, mod-lt l positive))
        (omega (
          arith,
          long,
          last_length,
          stored.3,
          div-add-mod l beta,
          div-add-mod (l + beta - 1) beta,
          ap (λ (x : ℕ). beta * x) stored.3,
        ))

  pub some_digit : 0 < l → 0 < c.num_digits
  some_digit some_bit = elim (ℕ_discrete c.r 0) [
    | yes none ↦ elim (ℕ_discrete (l / beta) 0) [
      | yes empty ↦
          let product = ap (λ (x : ℕ). beta * x) empty in
          absurd (omega (arith, none, last_length, div-add-mod l beta, product, some_bit))
      | no other ↦ omega (arith, other, full_count none)
    ]
    | no long ↦ omega (arith, short_count long)
  ]

  unshifted : (z : ℕ) → z / 2 ^ (0 * beta) ≡ z
  unshifted z = let none : 0 * beta ≡ 0 = omega arith in rw none (div-one z)

  pub digit_full-lt :
      (word i : ℕ) → (i ≢ c.num_digits - 1) ⊎ (c.r ≡ 0) → digit c word i < c.beta_pow
  digit_full-lt word i full =
      rw (digit_full word i full, stored.7) (mod-lt _ (one-le-pow beta 2 (omega arith)))

  pub digit_last-lt : (word i : ℕ) → i ≡ c.num_digits - 1 → c.r ≢ 0 → digit c word i < 2 ^ c.r
  digit_last-lt word i last long =
      rw (digit_last word i last long, last_length)
        (mod-lt _ (one-le-pow (l % beta) 2 (omega arith)))

  -- With what the constructor stores for a length of at least one bit and a radix of 1 to 8 bits,
  -- two words have equal digits, all of them, exactly where they agree on their low `l` bits.
  pub digits_equal :
      (x y : ℕ)
      → 0 < l
      → conj (λ i. digit c x i == digit c y i) 0 c.num_digits ≡ (x % 2 ^ l == y % 2 ^ l)
  digits_equal x y some_bit = elim (ℕ_discrete c.r 0) [
    | yes none ↦
        let same : (i : ℕ) → (digit c x i == digit c y i) ≡ (field beta x i == field beta y i) =
          λ i. ap₂ (λ a b. a == b) (digit_full x i (inr none)) (digit_full y i (inr none)) in
        let width : c.num_digits * beta ≡ l = omega (
          arith,
          full_count none,
          last_length,
          none,
          div-add-mod l beta,
          ap (λ (x : ℕ). beta * x) (full_count none),
        ) in
        conj-cong _ _ c.num_digits 0 (λ i h k. same i)
        ∙ conj_fields beta x y c.num_digits 0
        ∙ rw (unshifted x, unshifted y, width) refl
    | no long ↦
        let m = l / beta in
        let count : c.num_digits ≡ m + 1 = omega (arith, short_count long) in
        let f : ℕ → Bool = λ i. digit c x i == digit c y i in
        let head : conj f 0 m ≡ (x % 2 ^ (m * beta) == y % 2 ^ (m * beta)) =
          conj-cong f (λ i. field beta x i == field beta y i) m 0
            (λ i h k.
              ap₂ (λ a b. a == b) (digit_full x i (inl (omega (arith, count, k))))
                (digit_full y i (inl (omega (arith, count, k)))))
          ∙ conj_fields beta x y m 0
          ∙ rw (unshifted x, unshifted y) refl in
        let last : m ≡ c.num_digits - 1 = omega (arith, count) in
        let width : 2 ^ (m * beta) * 2 ^ (l % beta) ≡ 2 ^ l =
          sym (pow-add 2 (m * beta) (l % beta))
          ∙ ap (λ (e : ℕ). 2 ^ e) (omega (arith, div-add-mod l beta)) in
        ap (conj f 0) count
        ∙ conj-append f m 1 0
        ∙ rw (zero-add m, head, digit_last x m last long, digit_last y m last long, ← width)
            (ground (
              arith,
              mod_split x y (2 ^ (m * beta)) (2 ^ (l % beta))
                  (one-le-pow (m * beta) 2 (omega arith)),
            ))
  ]
