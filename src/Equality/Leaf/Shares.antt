-- ===== src/Equality/Leaf/Shares.antt =====
-- What the transfers of `computeLeafOTs` in triangle_counting/equality.h leave with the parties.
use sectric.Common.{
  ℕ, ◌+◌, ◌-◌, ◌*◌, ◌^◌, ◌<◌, ◌≤◌, ◌≡◌, refl, ap, ◌∙◌, inl, inr, Bool, true, false, xor, ◌==◌, ltb,
  lt→ltb, arith,
}
use native.Mathlib.Decide.{ℕ_discrete}
use sectric.Common.Run.{ok}
use sectric.Common.Fill.{fill1-hit, fill2-hit}
use sectric.Common.Places.{row_unique}
use sectric.Equality.Setup.{Config, digit, digits}
use sectric.Equality.Setup.Digits.{Stored, digit_full-lt, digit_last-lt}
use sectric.Equality.Leaf.{
  Transfer, Transfers, set_leaf_ot_messages, leaf_messages, compute_leaf_ots,
}
use sectric.Equality.Leaf.Receive.{index, early, late, receive_leaves_lem}

pub xor_mask : (x m : Bool) → xor m (xor x m) ≡ x
unfolding xor
xor_mask x m = ground arith

digits_at :
    (c : Config) (words stale : ℕ → ℕ) (i j : ℕ)
    → i < c.num_digits
    → j < c.num_cmps
    → digits c words stale (i * c.num_cmps + j) ≡ digit c (words j) i
unfolding digits
digits_at c words stale i j hi hj =
    fill2-hit c.num_digits c.num_cmps (λ i j. i * c.num_cmps + j) (λ i j. digit c (words j) i)
      (λ i j j' h h' e. omega arith)
      (λ i i' j j' hi hi' h h' e. row_unique i i' j j' c.num_cmps h h' e) stale i j hi hj

message_at :
    (d n k : ℕ) (mask : Bool) (stale : ℕ → Bool)
    → k < n
    → set_leaf_ot_messages d n mask stale k ≡ xor (d == k) mask
unfolding set_leaf_ot_messages
message_at d n k mask stale h =
    fill1-hit n (λ k. k) (λ k. xor (d == k) mask) (λ i j h h' e. e) stale k h

module _ (l beta n : ℕ) (positive : 0 < beta) (small : beta ≤ 8) (c : Config)
    (stored : Stored l beta n c) where
  message :
      (alice_words bob_words stale : ℕ → ℕ) (random : ℕ → Bool) (stale_messages : ℕ → ℕ → Bool)
      (i j : ℕ)
      → i < c.num_digits
      → j < c.num_cmps
      → leaf_messages c
          (digits c alice_words stale)
          random
          stale_messages
          (index c i j)
          (digit c (bob_words j) i)
        ≡ xor (digit c (alice_words j) i == digit c (bob_words j) i) (random (index c i j))
  unfolding leaf_messages
  message alice_words bob_words stale random sm i j hi hj =
      let mask = random (index c i j) in
      let here = digits_at c alice_words stale i j hi hj in
      elim (ℕ_discrete i (c.num_digits - 1)) [
        | no first ↦
            let test = lt→ltb _ _ (early c i j hi first hj) in
            rw (test, here)
              (message_at _ c.beta_pow _ mask (sm (index c i j))
                (digit_full-lt l beta n positive small c stored (bob_words j) i (inl first)))
        | yes last ↦
            let test : ltb (index c i j) (c.num_cmps * (c.num_digits - 1)) ≡ false =
              ground (arith, late c i j last) in
            elim (ℕ_discrete c.r 0) [
              | yes none ↦
                  let zero_test : (c.r == 0) ≡ true = ground arith in
                  rw (test, zero_test, here)
                    (message_at _ c.beta_pow _ mask (sm (index c i j))
                      (digit_full-lt l beta n positive small c stored (bob_words j) i (inr none)))
              | no long ↦
                  let zero_test : (c.r == 0) ≡ false = ground arith in
                  rw (test, zero_test, here)
                    (message_at _ (2 ^ c.r) _ mask (sm (index c i j))
                      (digit_last-lt l beta n positive small c stored (bob_words j) i last long))
            ]
      ]

  module _ (ot : Transfer) (contract : Transfers c ot) (alice_words bob_words stale : ℕ → ℕ)
      (random : ℕ → Bool) (sm : ℕ → ℕ → Bool) (stale_leaves : ℕ → Bool) where
    abbrev messages : ℕ → ℕ → Bool
    messages = leaf_messages c (digits c alice_words stale) random sm

    -- The parties' bits of a digit add up to whether the digits are equal.
    abbrev Shared : (ℕ → Bool) → Type 0
    Shared leaves =
        (i j : ℕ)
        → i < c.num_digits
        → j < c.num_cmps
        → xor (random (index c i j)) (leaves (index c i j))
          ≡ (digit c (alice_words j) i == digit c (bob_words j) i)

    abbrev choices : ℕ → ℕ
    choices = digits c bob_words stale

    abbrev same_digit : ℕ → ℕ → Bool
    same_digit i j = digit c (alice_words j) i == digit c (bob_words j) i

    unmask :
        (i j : ℕ) (leaf : Bool)
        → leaf ≡ xor (same_digit i j) (random (index c i j))
        → xor (random (index c i j)) leaf ≡ same_digit i j
    unmask i j leaf e =
        ap (xor (random (index c i j))) e ∙ xor_mask (same_digit i j) (random (index c i j))

    -- If the length is a multiple of the radix, or leaves a remainder of at most four bits, the
    -- transfers of `computeLeafOTs` end, the sender keeps its random bits, and the two parties'
    -- bits of each digit of each comparison add up to whether the two digits are equal. The
    -- transfers give each receiver the message of its choice.
    pub compute_leaf_ots_lem :
        c.r ≤ 4
        → (leaves : ℕ → Bool) × (compute_leaf_ots ot c alice_words bob_words random stale sm
              stale_leaves
            ≡ ok (random, leaves))
          × Shared leaves
    unfolding compute_leaf_ots
    compute_leaf_ots_lem few =
        let at : (i j : ℕ)
            → i < c.num_digits
            → j < c.num_cmps
            → choices (index c i j) ≡ digit c (bob_words j) i =
          digits_at c bob_words stale in
        let got =
          receive_leaves_lem c ot (λ v. Unit {0})
            (λ kind count messages choices i h bound fine.
              contract kind count messages choices i h bound)
            messages choices stale_leaves
            (λ i j hi hj whole.
              rw (at i j hi hj)
                (digit_full-lt l beta n positive small c stored (bob_words j) i whole))
            (λ i j hi hj last long.
              rw (at i j hi hj)
                (digit_last-lt l beta n positive small c stored (bob_words j) i last long))
            (λ i j hi hj. tt) few in
        rw got.1 (
          got.0,
          refl,
          λ i j hi hj. unmask i j _ (
              got.2 i j hi hj
              ∙ rw (at i j hi hj) (message alice_words bob_words stale random sm i j hi hj)),
        )
