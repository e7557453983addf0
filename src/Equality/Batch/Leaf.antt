-- ===== src/Equality/Batch/Leaf.antt =====
-- What the transfers of `computeLeafOTs` in triangle_counting/batch_equality.h leave with the
-- parties.
use sectric.Common.{
  ℕ, ◌+◌, ◌-◌, ◌*◌, ◌/◌, ◌%◌, ◌^◌, ◌<◌, ◌≤◌, ◌≡◌, refl, sym, ap, ap₂, ◌∙◌, inl, inr, Bool, true,
  false, not, xor, ◌==◌, ◌&&◌, if◌then◌else◌, arith,
}
use native.Mathlib.Decide.{ℕ_discrete}
use native.Mathlib.Nat.{mul-le-mul_right, pow-le-pow_right}
use sectric.Common.Run.{ok}
use sectric.Common.Fill.{fill1-hit, fill2-hit}
use sectric.Common.Places.{row_unique}
use sectric.Equality.Setup.{Config, digit}
use sectric.Equality.Setup.Digits.{Stored, digit_full-lt, digit_last-lt}
use sectric.Equality.Leaf.Receive.{index, inside, receive_leaves_lem}
use sectric.Equality.Leaf.Shares.{xor_mask}
use sectric.Equality.Batch.{
  BatchConfig, Transfer, Transfers, digits, message, leaf_at, set_leaf_ot_messages, leaf_messages,
  extract, compute_leaf_ots,
}
use sectric.Equality.Batch.Messages.{message_bits, message_test}
use sectric.Equality.Batch.Extract.{bit_at, extract_lem}

digits_at :
    (c : Config) (width : ℕ) (words stale : ℕ → ℕ) (i j : ℕ)
    → i < c.num_digits
    → j < width
    → digits c width words stale (i * width + j) ≡ digit c (words j) i
unfolding digits
digits_at c width words stale i j hi hj =
    fill2-hit c.num_digits width (λ i j. i * width + j) (λ i j. digit c (words j) i)
      (λ i j j' h h' e. omega arith) (λ i i' j j' hi hi' h h' e. row_unique i i' j j' width h h' e)
      stale i j hi hj

module _ (l beta n : ℕ) (positive : 0 < beta) (small : beta ≤ 8) (c : BatchConfig)
    (stored : Stored l beta n c.base) (few_words : c.batch_size ≤ 3) where
  open c use {base, batch_size}

  abbrev same_digit : (ℕ → ℕ) → (ℕ → ℕ) → ℕ → ℕ → ℕ → Bool
  same_digit alice_words bob_words m i j =
      digit base (alice_words (j * batch_size + m)) i == digit base (bob_words j) i

  -- How many messages an instance of row `i` has.
  abbrev row_arity : ℕ → ℕ
  row_arity i = if i == base.num_digits - 1 && not (base.r == 0) then 2 ^ base.r else base.beta_pow

  choice_bound : (word i : ℕ) → digit base word i < row_arity i
  choice_bound word i = elim (ℕ_discrete i (base.num_digits - 1)) [
    | no first ↦
        let test : i == base.num_digits - 1 && not (base.r == 0) ≡ false = ground (arith, first) in
        rw test (digit_full-lt l beta n positive small base stored word i (inl first))
    | yes last ↦ elim (ℕ_discrete base.r 0) [
      | yes none ↦
          let test : i == base.num_digits - 1 && not (base.r == 0) ≡ false = ground (arith, none) in
          rw test (digit_full-lt l beta n positive small base stored word i (inr none))
      | no long ↦
          let test : i == base.num_digits - 1 && not (base.r == 0) ≡ true =
            ground (arith, last, long) in
          rw test (digit_last-lt l beta n positive small base stored word i last long)
    ]
  ]

  module _ (ot : Transfer) (contract : Transfers base ot) (alice_words bob_words stale : ℕ → ℕ)
      (random : ℕ → Bool) (sm : ℕ → ℕ → ℕ) (stale_leaves : ℕ → ℕ) where
    abbrev width : ℕ
    width = batch_size * base.num_cmps

    abbrev messages : ℕ → ℕ → ℕ
    messages = leaf_messages c (digits base width alice_words stale) random sm

    abbrev choices : ℕ → ℕ
    choices = digits base base.num_cmps bob_words stale

    -- The message of a choice: a bit for each word of the batch.
    message_of :
        (i j k : ℕ)
        → i < base.num_digits
        → j < base.num_cmps
        → k < row_arity i
        → messages (index base i j) k
          ≡ message batch_size (λ m.
            xor
              (digits base width alice_words stale (i * width + j * batch_size + m) == k)
              (random (leaf_at c m i j)))
    unfolding leaf_messages set_leaf_ot_messages
    message_of i j k hi hj hk =
        ap (λ (f : ℕ → ℕ). f k)
          (fill2-hit base.num_digits base.num_cmps (λ i j. i * base.num_cmps + j) _
            (λ i j j' h h' e. omega arith)
            (λ i i' j j' hi hi' h h' e. row_unique i i' j j' base.num_cmps h h' e) sm i j hi hj)
        ∙ fill1-hit (row_arity i) (λ k. k) _ (λ i j h h' e. e) (sm (index base i j)) k hk

    alice_digit :
        (i j m : ℕ)
        → i < base.num_digits
        → j < base.num_cmps
        → m < batch_size
        → digits base width alice_words stale (i * width + j * batch_size + m)
          ≡ digit base (alice_words (j * batch_size + m)) i
    alice_digit i j m hi hj hm =
        let within : j * batch_size + m < width = omega (arith, mul-le-mul_right batch_size hj) in
        let place : i * width + (j * batch_size + m) ≡ i * width + j * batch_size + m =
          omega arith in
        ap (digits base width alice_words stale) (sym place)
        ∙ digits_at base width alice_words stale i (j * batch_size + m) hi within

    abbrev Shared : (ℕ → Bool) → Type 0
    Shared leaves =
        (m i j : ℕ)
        → m < batch_size
        → i < base.num_digits
        → j < base.num_cmps
        → xor (random (leaf_at c m i j)) (leaves (leaf_at c m i j))
          ≡ same_digit alice_words bob_words m i j

    -- For at most three words in a batch, a length that is a multiple of the radix or leaves a
    -- remainder of at most four bits, and transfers that give each receiver the message of its
    -- choice, `setLeafMessages` and `computeLeafOTs` of the batched comparison end, ALICE keeps
    -- its random bits, and the two parties' bits of each digit of each word of each batch add up
    -- to whether ALICE's digit is BOB's.
    pub compute_leaf_ots-Shared :
        base.r ≤ 4
        → (leaves : ℕ → Bool) × (compute_leaf_ots c ot alice_words bob_words random stale sm
              stale_leaves
            ≡ ok (random, leaves))
          × Shared leaves
    unfolding compute_leaf_ots
    compute_leaf_ots-Shared few =
        let chosen : (i j : ℕ)
            → i < base.num_digits
            → j < base.num_cmps
            → choices (index base i j) ≡ digit base (bob_words j) i =
          digits_at base base.num_cmps bob_words stale in
        let arity_at : (i j : ℕ)
            → i < base.num_digits
            → j < base.num_cmps
            → choices (index base i j) < row_arity i =
          λ i j hi hj. rw (chosen i j hi hj) (choice_bound (bob_words j) i) in
        let room : 2 ^ batch_size ≤ 2 ^ 3 = pow-le-pow_right (omega arith) few_words in
        let got =
          receive_leaves_lem base (λ k count. ot k count 3) (λ v. v < 2 ^ 3)
            (λ k count messages choices i h bound fits.
              contract k count 3 messages choices i h bound fits)
            messages choices stale_leaves
            (λ i j hi hj whole.
              rw (chosen i j hi hj)
                (digit_full-lt l beta n positive small base stored (bob_words j) i whole))
            (λ i j hi hj last long.
              rw (chosen i j hi hj)
                (digit_last-lt l beta n positive small base stored (bob_words j) i last long))
            (λ i j hi hj.
              rw (message_of i j _ hi hj (arity_at i j hi hj))
                (omega (arith, room, (message_bits batch_size _ (omega arith)).0)))
            few in
        rw got.1 (
          _,
          refl,
          λ m i j hm hi hj.
              let k = choices (index base i j) in
              let place : bit_at c m (index base i j) ≡ leaf_at c m i j = omega arith in
              let within : index base i j < base.num_digits * base.num_cmps =
                omega (arith, inside base i j hi hj) in
              let bit =
                ap (extract c got.0) (sym place)
                ∙ extract_lem c got.0 (index base i j) m within hm
                ∙ ap (λ (x : ℕ). x / 2 ^ m % 2)
                    (got.2 i j hi hj ∙ message_of i j k hi hj (arity_at i j hi hj)) in
              ap (xor (random (leaf_at c m i j))) (
                ap (λ (x : ℕ). x == 1) bit
                ∙ message_test batch_size _ m (omega arith) hm
                ∙ ap (λ (b : Bool). xor b (random (leaf_at c m i j)))
                    (ap₂ (λ x y. x == y) (alice_digit i j m hi hj hm) (chosen i j hi hj)))
              ∙ xor_mask _ (random (leaf_at c m i j)),
        )
