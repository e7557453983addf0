-- ===== src/Equality/Batch/Places.antt =====
-- Where `traverse_and_compute_ANDs` of triangle_counting/batch_equality.h keeps bytes and digits.
use sectric.Common.{ℕ, suc, ◌+◌, ◌*◌, ◌/◌, ◌<◌, ◌≤◌, ◌≡◌, ap, arith}
use native.Mathlib.Nat.{mul-le-mul_right}
use sectric.Common.Places.{row_unique}
use sectric.Common.Fill.{ApartRow, Apart2, Apart3, Apart4, Address3}
use sectric.Equality.Doubling.{rounds_bound}
use sectric.Equality.Traverse.{pairs, groups}
use sectric.Equality.Batch.{BatchConfig, byte_at, digit_at}

module _ (c : BatchConfig) (w : ℕ) (aligned : c.base.num_cmps ≡ 8 * w) where
  open c use {base, batch_size}

  scaled : (t : ℕ) → t * base.num_cmps ≡ 8 * (t * w)
  scaled t = omega (arith, ap (λ (x : ℕ). t * x) aligned)

  pub groups_lem : groups base ≡ w
  groups_lem = omega (arith, aligned)

  byte_at_lem : (n k m : ℕ) → byte_at c n k m ≡ (n * batch_size + k) * w + m
  byte_at_lem n k m = omega (arith, scaled (n * batch_size), scaled k)

  pub digit_at_lem :
      (j k m u : ℕ) → digit_at c j k m + u ≡ 8 * ((k * base.num_digits + j) * w + m) + u
  digit_at_lem j k m u = omega (arith, scaled j, scaled (k * base.num_digits))

  pub comm_size_lem : (p : ℕ) → p * batch_size * base.num_cmps / 8 ≡ p * batch_size * w
  comm_size_lem p = omega (arith, scaled (p * batch_size))

  pub byte_row : (n : ℕ) → ApartRow w (byte_at c n)
  byte_row n k m m' h h' e = omega (arith, e, byte_at_lem n k m, byte_at_lem n k m')

  byte_slot :
      (n n' k k' m m' : ℕ)
      → m < w
      → m' < w
      → byte_at c n k m ≡ byte_at c n' k' m'
      → n * batch_size + k ≡ n' * batch_size + k'
  byte_slot n n' k k' m m' h h' e =
      row_unique (n * batch_size + k) (n' * batch_size + k') m m' w h h'
        (omega (arith, e, byte_at_lem n k m, byte_at_lem n' k' m'))

  pub byte_plane : (n : ℕ) → Apart2 batch_size w (byte_at c n)
  byte_plane n k k' m m' hk hk' h h' e = omega (arith, byte_slot n n k k' m m' h h' e)

  pub byte_apart : (p : ℕ) → Apart3 p batch_size w (byte_at c)
  byte_apart p n n' k k' m m' hn hn' hk hk' h h' e =
      row_unique n n' k k' batch_size hk hk' (byte_slot n n' k k' m m' h h' e)

  pub byte_in_range :
      (n k m p : ℕ) → n < p → k < batch_size → m < w → byte_at c n k m < p * batch_size * w
  byte_in_range n k m p hn hk hm =
      let slot : suc (n * batch_size + k) ≤ p * batch_size =
        omega (arith, mul-le-mul_right batch_size hn) in
      omega (arith, byte_at_lem n k m, mul-le-mul_right w slot)

  -- A place determines the digit, the word and the comparison.
  pub place_unique :
      (j j' k k' m m' u u' : ℕ)
      → j < base.num_digits
      → j' < base.num_digits
      → m < w
      → m' < w
      → u < 8
      → u' < 8
      → digit_at c j k m + u ≡ digit_at c j' k' m' + u'
      → (k ≡ k') × (j ≡ j') × (m ≡ m') × (u ≡ u')
  place_unique j j' k k' m m' u u' hj hj' hm hm' hu hu' e =
      let bytes : (k * base.num_digits + j) * w + m ≡ (k' * base.num_digits + j') * w + m' =
        omega (arith, e, digit_at_lem j k m u, digit_at_lem j' k' m' u') in
      let rows : k * base.num_digits + j ≡ k' * base.num_digits + j' =
        row_unique (k * base.num_digits + j) (k' * base.num_digits + j') m m' w hm hm' bytes in
      let words : k ≡ k' = row_unique k k' j j' base.num_digits hj hj' rows in
      let scaled_words = ap (λ (x : ℕ). x * base.num_digits) words in
      let digits : j ≡ j' = omega (arith, rows, scaled_words) in
      let scaled_rows = ap (λ (x : ℕ). x * w) rows in
      (
        words,
        digits,
        omega (arith, bytes, scaled_rows),
        omega (arith, e, digit_at_lem j k m u, digit_at_lem j' k' m' u', bytes),
      )

  module _ (i : ℕ) (positive : 0 < i) where
    abbrev pub first_at : ℕ → Address3
    first_at n k m u = digit_at c (2 * i * n) k m + u

    pub first_row : (n k : ℕ) → ApartRow 8 (first_at n k)
    first_row n k m u u' h h' e = omega arith

    pub first_plane : (n k : ℕ) → Apart2 w 8 (first_at n k)
    first_plane n k m m' u u' hm hm' h h' e = omega arith

    pub first_cube : 0 < base.num_digits → (n : ℕ) → Apart3 batch_size w 8 (first_at n)
    first_cube some_digit n k k' m m' u u' hk hk' hm hm' hu hu' e =
        (place_unique 0 0 k k' m m' u u' some_digit some_digit hm hm' hu hu' (omega (arith, e))).0

    pub first_below : (n : ℕ) → n < pairs base i → 2 * i * n < base.num_digits
    first_below n h = omega (arith, rounds_bound base.num_digits i n positive h)

    pub first_apart : Apart4 (pairs base i) batch_size w 8 first_at
    first_apart n n' k k' m m' u u' hn hn' inside inside' e =
        let same : 2 * i * n ≡ 2 * i * n' =
          (place_unique (2 * i * n) (2 * i * n') k k' m m' u u' (first_below n hn)
            (first_below n' hn') inside.1 inside'.1 inside.2 inside'.2 e).1 in
        grind arith
