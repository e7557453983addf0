-- ===== src/Equality/Leaf/Receive.antt =====
-- What the receiver of `computeLeafOTs` holds after its transfers, in triangle_counting/equality.h
-- and triangle_counting/batch_equality.h.
use sectric.Common.{
  ℕ, zero, suc, ◌+◌, ◌-◌, ◌*◌, ◌^◌, ◌<◌, ◌≤◌, ◌≡◌, ◌≢◌, refl, ap, ◌∙◌, ◌⊎◌, inl, inr, true, false,
  ◌==◌, ltb, lt→ltb, arith,
}
use native.Mathlib.Decide.{ℕ_discrete}
use native.Mathlib.Nat.{mul-le-mul_right}
use sectric.Common.Run.{ok}
use sectric.Equality.Setup.{Config}
use sectric.Equality.Leaf.{
  OtKind, kkot_beta, iknp_straight, kkot_4, kkot_8, kkot_16, arity, TransferOf, last_kind,
  receive_leaves,
}

last_kind_lem :
    (c : Config) (r : ℕ) → r ≢ 0 → r ≤ 4 → (k : OtKind) × (last_kind r ≡ ok k) × (arity c k ≡ 2 ^ r)
unfolding last_kind
last_kind_lem c zero h b = absurd (h refl)
last_kind_lem c (suc zero) h b = (iknp_straight, refl, refl)
last_kind_lem c (suc (suc zero)) h b = (kkot_4, refl, refl)
last_kind_lem c (suc (suc (suc zero))) h b = (kkot_8, refl, refl)
last_kind_lem c (suc (suc (suc (suc zero)))) h b = (kkot_16, refl, refl)
last_kind_lem c (suc (suc (suc (suc (suc r))))) h b = absurd (omega arith)

-- Places in the rows of `leaf_eq`; the last row has its own transfer.
module _ (c : Config) where
  abbrev pub index : ℕ → ℕ → ℕ
  index i j = i * c.num_cmps + j

  pub early :
      (i j : ℕ)
      → i < c.num_digits
      → i ≢ c.num_digits - 1
      → j < c.num_cmps
      → index i j < c.num_cmps * (c.num_digits - 1)
  early i j hi h hj =
      let below : suc i ≤ c.num_digits - 1 = omega (arith, h) in
      omega (arith, mul-le-mul_right c.num_cmps below)

  pub late : (i j : ℕ) → i ≡ c.num_digits - 1 → c.num_cmps * (c.num_digits - 1) ≤ index i j
  late i j h = omega (arith, ap (λ (x : ℕ). x * c.num_cmps) h)

  pub inside : (i j : ℕ) → i < c.num_digits → j < c.num_cmps → index i j < c.num_cmps * c.num_digits
  inside i j hi hj = omega (arith, mul-le-mul_right c.num_cmps hi)

  module _ {V : Type 0} (ot : TransferOf V) (Good : V → Type 0)
      (gives : (k : OtKind) (count : ℕ) (messages : ℕ → ℕ → V) (choices : ℕ → ℕ) (i : ℕ)
        → i < count
        → choices i < arity c k
        → Good (messages i (choices i))
        → ot k count messages choices i ≡ messages i (choices i))
      (messages : ℕ → ℕ → V) (choices : ℕ → ℕ) (stale : ℕ → V)
      (full : (i j : ℕ)
        → i < c.num_digits
        → j < c.num_cmps
        → (i ≢ c.num_digits - 1) ⊎ (c.r ≡ 0)
        → choices (index i j) < c.beta_pow)
      (last : (i j : ℕ)
        → i < c.num_digits
        → j < c.num_cmps
        → i ≡ c.num_digits - 1
        → c.r ≢ 0
        → choices (index i j) < 2 ^ c.r)
      (good : (i j : ℕ)
        → i < c.num_digits
        → j < c.num_cmps
        → Good (messages (index i j) (choices (index i j)))) where
    shifted :
        (kind : OtKind) (count off x : ℕ)
        → off ≤ x
        → x - off < count
        → choices x < arity c kind
        → Good (messages x (choices x))
        → ot kind count (λ k. messages (off + k)) (λ k. choices (off + k)) (x - off)
          ≡ messages x (choices x)
    shifted kind count off x from h bound fine =
        let back : off + (x - off) ≡ x = omega arith in
        gives kind count (λ k. messages (off + k)) (λ k. choices (off + k)) (x - off) h
          (rw back bound) (rw back fine)
        ∙ rw back refl

    -- Each receiver gets, for each digit of each comparison, the message of its choice.
    pub receive_leaves_lem :
        c.r ≤ 4
        → (leaves : ℕ → V) × (receive_leaves ot c messages choices stale ≡ ok leaves)
          × ((i j : ℕ)
              → i < c.num_digits
              → j < c.num_cmps
              → leaves (index i j) ≡ messages (index i j) (choices (index i j)))
    unfolding receive_leaves
    receive_leaves_lem few = elim (ℕ_discrete c.r 0) [
      | yes none ↦
          let zero_test : (c.r == 0) ≡ true = ground arith in
          rw zero_test (
            _,
            refl,
            λ i j hi hj.
                let test = lt→ltb _ _ (inside i j hi hj) in
                rw test (
                  gives kkot_beta (c.num_cmps * c.num_digits) messages choices (index i j)
                    (inside i j hi hj) (full i j hi hj (inr none)) (good i j hi hj)),
          )
      | no long ↦
          let zero_test : (c.r == 0) ≡ false = ground arith in
          let kind = last_kind_lem c c.r long few in
          let head = c.num_cmps * (c.num_digits - 1) in
          rw (zero_test, kind.1)
            (
              _,
              refl,
              λ i j hi hj. elim (ℕ_discrete i (c.num_digits - 1)) [
                | no first ↦
                    let test = lt→ltb _ _ (early i j hi first hj) in
                    rw test (
                      gives kkot_beta head messages choices (index i j) (early i j hi first hj)
                        (full i j hi hj (inl first)) (good i j hi hj))
                | yes at_end ↦
                    let test : ltb (index i j) head ≡ false = ground (arith, late i j at_end) in
                    let within = lt→ltb _ _ (inside i j hi hj) in
                    rw (test, within)
                      (shifted kind.0 c.num_cmps head (index i j) (late i j at_end)
                        (omega (arith, ap (λ (x : ℕ). x * c.num_cmps) at_end, hj))
                        (rw kind.2 (last i j hi hj at_end long)) (good i j hi hj))
              ],
            )
    ]
