-- ===== src/Equality/Setup.antt =====
-- The constructor and `configure` of `Equality` in triangle_counting/equality.h, and the digits.
pub mod Digits
use sectric.Common.{
  ℕ, ◌+◌, ◌-◌, ◌*◌, ◌/◌, ◌%◌, ◌^◌, Bool, not, ◌==◌, ◌&&◌, if◌then◌else◌, ltb, bit_and,
}
use sectric.Common.Run.{Run, ok, fault, ◌>>=◌, modulo, assertion}
use sectric.Common.Fill.{fill2}

pub record Config : Type 0 where
  pub l : ℕ
  pub beta : ℕ
  pub num_cmps : ℕ
  pub num_digits : ℕ
  pub r : ℕ
  pub num_triples : ℕ
  pub mask_beta : ℕ
  pub mask_r : ℕ
  pub beta_pow : ℕ
  pub total_triples_count : ℕ

-- `ceil((double)l / beta)` is the quotient rounded up; a `uint8_t` that is set to -1 holds 255.
unfoldable pub configure : ℕ → ℕ → ℕ → Run Config
configure l beta num_cmps = do
  r ← modulo l beta
  let num_digits = (l + beta - 1) / beta
  ok (record {
    l = l;
    beta = beta;
    num_cmps = num_cmps;
    num_digits = num_digits;
    r = r;
    num_triples = num_digits - 1;
    mask_beta = if beta == 8 then 255 else (2 ^ beta - 1) % 256;
    mask_r = (2 ^ r - 1) % 256;
    beta_pow = 2 ^ beta;
    total_triples_count = l * num_cmps;
  })

-- The constructor asserts the two bounds.
unfoldable pub new : ℕ → ℕ → ℕ → Run Config
new bitlength log_radix_base num_cmps =
    if ltb 8 log_radix_base
    then fault assertion
    else if ltb 64 bitlength
    then fault assertion
    else configure bitlength log_radix_base num_cmps

-- Digit `i` of a word: the last one is shorter if the length is no multiple of the radix.
unfoldable pub digit : Config → ℕ → ℕ → ℕ
digit c word i =
    let byte = word / 2 ^ (i * c.beta) % 256 in
    if i == c.num_digits - 1 && not (c.r == 0)
    then bit_and byte c.mask_r
    else bit_and byte c.mask_beta

-- `digits[i * num_cmps + j]`
unfoldable pub digits : Config → (ℕ → ℕ) → (ℕ → ℕ) → ℕ → ℕ
digits c words stale =
    fill2 c.num_digits c.num_cmps (λ i j. i * c.num_cmps + j) (λ i j. digit c (words j) i) stale
