-- ===== src/Oprf/Sizes.antt =====
-- The numbers that `Setup` of debug_files/vole_oprf.hpp stores.
use sectric.Common.{
  ℕ, ◌+◌, ◌-◌, ◌*◌, ◌%◌, ◌^◌, ◌≤◌, ◌<◌, ◌≡◌, refl, true, ltb, arith, Bool-cases, inl, inr,
}
use Prim.Native.Nat.{max}
use native.Mathlib.Nat.{pow-le-pow_right}
use sectric.Common.Places.{pow-add}
use sectric.Oprf.{log_bin_size, setup}

log_bin_size_lem : (log : ℕ) → 7 ≤ log → log < 2 ^ 64 → log_bin_size log ≡ max 8 (log - 7)
log_bin_size_lem log h l = elim (Bool-cases (ltb 8 ((log + 2 ^ 64 - 7) % 2 ^ 64))) [
  | inl more ↦ rw more (ground arith)
  | inr less ↦ rw less (ground arith)
]

-- For a logarithm of 7 to 63, if the bytes of the store that `Baxos` makes for these inputs are
-- counted in 64 bits, `Setup` stores as the number of inputs the power of two of 64 bits, bins of at
-- least 256 inputs of which 128 hold all inputs, the store's number of bins times their size, and
-- a key size of one range size for each block of the store.
pub setup_lem :
    (baxos : ℕ → ℕ → ℕ × ℕ) (undetermined log security : ℕ)
    → 7 ≤ log
    → log < 64
    → (let pp = setup baxos undetermined log security in
        let made = baxos pp.input_num pp.okvs_bin_size in 16 * (made.0 * made.1) < 2 ^ 64)
    → let pp = setup baxos undetermined log security in
      let made = baxos pp.input_num pp.okvs_bin_size in
      (pp.input_num ≡ 2 ^ log)
      × (pp.input_num < 2 ^ 64)
      × (256 ≤ pp.okvs_bin_size)
      × (pp.input_num ≤ 128 * pp.okvs_bin_size)
      × (pp.okvs_output_size ≡ made.0 * made.1)
      × (pp.key_size ≡ pp.range_size * pp.okvs_output_size)
unfolding setup
setup_lem baxos undetermined log security h l fits =
    let e = log_bin_size log in
    let same : e ≡ max 8 (log - 7) = log_bin_size_lem log h (omega arith) in
    let defined : ltb e 64 ≡ true = ground (arith, same) in
    let defined_log : ltb log 64 ≡ true = ground (arith, l) in
    let top : 2 ^ log ≤ 2 ^ 63 =
      pow-le-pow_right {n = 2} (omega arith) {i = log} {j = 63} (omega arith) in
    let least : 2 ^ 8 ≤ 2 ^ e =
      pow-le-pow_right {n = 2} (omega arith) {i = 8} {j = e} (omega (arith, same)) in
    let reach : 2 ^ log ≤ 2 ^ (7 + e) =
      pow-le-pow_right {n = 2} (omega arith) {i = log} {j = 7 + e} (omega (arith, same)) in
    let made = baxos (2 ^ log) (2 ^ e) in
    let counted : 16 * (made.0 * made.1) < 2 ^ 64 = rw (defined_log, defined) at fits in
    rw (defined_log, defined)
      (
        refl,
        omega (arith, top),
        omega (arith, least),
        omega (arith, reach, pow-add 2 7 e),
        omega (arith, counted),
        omega (arith, counted),
      )
