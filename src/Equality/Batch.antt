-- ===== src/Equality/Batch.antt =====
-- `BatchEquality` of triangle_counting/batch_equality.h: ALICE has `batch_size` words for each
-- comparison and BOB one, and they compute shares of how many of ALICE's words are BOB's, modulo
-- 2. The build without `WAN_EXEC` is modelled. The constructor asserts and computes what that of
-- `Equality` does; the bytes of `leaf_eq` that hold 0 or 1 are Booleans.
pub mod Messages
pub mod Extract
pub mod Leaf
pub mod Places
pub mod Level
pub mod Tree
pub mod Perform
pub mod Shares
use sectric.Common.{
  ℕ, zero, suc, ◌+◌, ◌-◌, ◌*◌, ◌/◌, ◌%◌, ◌^◌, ◌<◌, ◌≡◌, Bool, false, not, xor, ◌==◌, ◌&&◌,
  if◌then◌else◌, ltb, bit_and, bit_or, bit_xor, Option,
}
use sectric.Common.Loops.{for_each, update}
use sectric.Common.Fill.{fill1, fill2, fill3, fill4}
use sectric.Common.Run.{Run, ok, ◌>>=◌, fueled}
use sectric.Equality.Doubling.{doubling}
use sectric.Equality.Leaf.{OtKind, arity, receive_leaves}
use sectric.Equality.Setup
use sectric.Equality.Setup.{Config, digit}
use sectric.Equality.Traverse.{
  Packing, PartyId, alice, bob, Triples, AreTriples, Party, pairs, groups, product_share,
}

pub record BatchConfig : Type 0 where
  pub base : Config
  pub batch_size : ℕ

unfoldable pub new : ℕ → ℕ → ℕ → ℕ → Run BatchConfig
new bitlength log_radix_base batch_size num_cmps = do
  base ← Setup.new bitlength log_radix_base num_cmps
  ok (record { base = base; batch_size = batch_size })

-- A transfer also takes the number of bits of its messages.
abbrev pub Transfer : Type 0
Transfer = OtKind → ℕ → ℕ → (ℕ → ℕ → ℕ) → (ℕ → ℕ) → ℕ → ℕ

-- Oblivious transfer gives the receiver the message of its choice, if it has so many bits.
abbrev pub Transfers : Config → Transfer → Type 0
Transfers c ot =
    (k : OtKind) (count bits : ℕ) (messages : ℕ → ℕ → ℕ) (choices : ℕ → ℕ) (i : ℕ)
    → i < count
    → choices i < arity c k
    → messages i (choices i) < 2 ^ bits
    → ot k count bits messages choices i ≡ messages i (choices i)

-- `digits[i * radixArrSize + j]`
unfoldable pub digits : Config → ℕ → (ℕ → ℕ) → (ℕ → ℕ) → ℕ → ℕ
digits c radix_arr_size words stale =
    fill2 c.num_digits radix_arr_size (λ i j. i * radix_arr_size + j) (λ i j. digit c (words j) i)
      stale

-- The loop over `m` in `set_leaf_ot_messages`: a bit for each word of the batch. The message is a
-- `uint8_t`.
unfoldable pub message : ℕ → (ℕ → Bool) → ℕ
message batch_size bits =
    for_each batch_size (λ m acc. bit_or acc ((if bits m then 1 else 0) * 2 ^ m) % 256) 0

module _ (c : BatchConfig) where
  open c use {base, batch_size}

  -- `leaf_eq` has a part for each word of the batch, with a row for each digit.
  abbrev pub leaf_at : ℕ → ℕ → ℕ → ℕ
  leaf_at m i j = m * base.num_digits * base.num_cmps + i * base.num_cmps + j

  unfoldable pub set_leaf_ot_messages : (ℕ → ℕ) → ℕ → (ℕ → Bool) → ℕ → ℕ → (ℕ → ℕ) → ℕ → ℕ
  set_leaf_ot_messages digits n mask_bytes i j stale =
      fill1 n (λ k. k)
        (λ k. message batch_size (λ m.
          xor (digits (i * (batch_size * base.num_cmps) + j * batch_size + m) == k)
            (mask_bytes (leaf_at m i j))))
        stale

  -- ALICE's `leaf_ot_messages[i * num_cmps + j]`.
  unfoldable pub leaf_messages : (ℕ → ℕ) → (ℕ → Bool) → (ℕ → ℕ → ℕ) → ℕ → ℕ → ℕ
  leaf_messages digits leaf_eq stale =
      fill2 base.num_digits base.num_cmps (λ i j. i * base.num_cmps + j)
        (λ i j.
          set_leaf_ot_messages digits
            (if i == base.num_digits - 1 && not (base.r == 0) then 2 ^ base.r else base.beta_pow)
            leaf_eq i j (stale (i * base.num_cmps + j)))
        stale

  -- BOB's loops after the transfers: `j` counts down, and the first part is read and overwritten.
  unfoldable pub extract : (ℕ → ℕ) → ℕ → ℕ
  extract leaf_eq =
      for_each (base.num_digits * base.num_cmps)
        (λ i leaf_eq.
          for_each batch_size
            (λ round leaf_eq.
              let j = batch_size - 1 - round in
              update leaf_eq (j * base.num_digits * base.num_cmps + i) (leaf_eq i / 2 ^ j % 2))
            leaf_eq)
        leaf_eq

  -- Both parties' `leaf_eq` after `setLeafMessages` and `computeLeafOTs`; the transfers are of
  -- messages of three bits.
  unfoldable pub compute_leaf_ots :
      Transfer
      → (ℕ → ℕ)
      → (ℕ → ℕ)
      → (ℕ → Bool)
      → (ℕ → ℕ)
      → (ℕ → ℕ → ℕ)
      → (ℕ → ℕ)
      → Run ((ℕ → Bool) × (ℕ → Bool))
  compute_leaf_ots ot alice_words bob_words random stale stale_messages stale_leaves = do
    leaves ←
        receive_leaves (λ k count. ot k count 3) base
          (leaf_messages (digits base (batch_size * base.num_cmps) alice_words stale) random
            stale_messages)
          (digits base base.num_cmps bob_words stale) stale_leaves
    ok (random, λ x. extract leaves x == 1)

  -- Where the round with these counters keeps its byte, and where its digits stand.
  abbrev pub byte_at : ℕ → ℕ → ℕ → ℕ
  byte_at counter k m = (counter * batch_size * base.num_cmps + k * base.num_cmps + 8 * m) / 8

  abbrev pub triple_at : ℕ → ℕ → ℕ → ℕ → ℕ
  triple_at count counter k m =
      (count + counter * batch_size * base.num_cmps + k * base.num_cmps + 8 * m) / 8

  abbrev pub digit_at : ℕ → ℕ → ℕ → ℕ
  digit_at j k m = j * base.num_cmps + k * base.num_digits * base.num_cmps + 8 * m

  module _ (p : Packing) where
    open p use {bool_to_uint8, uint8_to_bool}

    -- The first loop nest: the masked digits `j` and `j + i`.
    unfoldable pub mask_digits : Triples → ℕ → ℕ → Party → Party
    mask_digits t i triple_count s = record s {
      ei =
          fill3 (pairs base i) batch_size (groups base) byte_at
            (λ n k m.
              bit_xor (t.ai (triple_at triple_count n k m))
                (bool_to_uint8 (λ u. s.leaf_eq (digit_at (2 * i * n) k m + u))))
            s.ei;
      fi =
          fill3 (pairs base i) batch_size (groups base) byte_at
            (λ n k m.
              bit_xor (t.bi (triple_at triple_count n k m))
                (bool_to_uint8 (λ u. s.leaf_eq (digit_at (2 * i * n + i) k m + u))))
            s.fi;
    }

    -- What a party has in `e` and `f` after it received the other's bytes and added its own.
    unfoldable pub combine : ℕ → Party → Party → Party
    combine comm_size mine theirs = record mine {
      e = λ q. if ltb q comm_size then bit_xor (theirs.ei q) (mine.ei q) else mine.e q;
      f = λ q. if ltb q comm_size then bit_xor (theirs.fi q) (mine.fi q) else mine.f q;
    }

    -- The second loop nest: digit `j` becomes the product's share.
    unfoldable pub multiply : PartyId → Triples → ℕ → ℕ → Party → Party
    multiply who t i old_triple_count s = record s {
      leaf_eq =
          fill4 (pairs base i) batch_size (groups base) 8 (λ n k m u. digit_at (2 * i * n) k m + u)
            (λ n k m.
              uint8_to_bool
                (product_share who t s (byte_at n k m) (triple_at old_triple_count n k m)))
            s.leaf_eq;
    }

    unfoldable pub level : Triples → Triples → ℕ → ℕ → Party × Party → Party × Party
    level ta tb i triple_count s =
        let comm_size = pairs base i * batch_size * base.num_cmps / 8 in
        let a = mask_digits ta i triple_count s.0 in
        let b = mask_digits tb i triple_count s.1 in
        (
          multiply alice ta i triple_count (combine comm_size a b),
          multiply bob tb i triple_count (combine comm_size b a),
        )

    -- The loop over the levels, on fuel.
    unfoldable pub levels : Triples → Triples → ℕ → ℕ → ℕ → Party × Party → Option (Party × Party)
    levels ta tb =
        doubling base.num_digits (λ i. pairs base i * batch_size * base.num_cmps) (level ta tb)

  -- A party's `res_shares`: the sum of the first digits of a batch.
  unfoldable pub res_shares : (ℕ → Bool) → (ℕ → Bool) → ℕ → Bool
  res_shares leaf_eq stale =
      fill1 base.num_cmps (λ i. i)
        (λ i.
          for_each batch_size (λ j acc. xor acc (leaf_eq (j * base.num_digits * base.num_cmps + i)))
            false)
        stale

  unfoldable pub traverse_and_compute_ands :
      Packing → Triples → Triples → (ℕ → Bool) → Party × Party → Run ((ℕ → Bool) × (ℕ → Bool))
  traverse_and_compute_ands p ta tb stale s = do
    r ← fueled (levels p ta tb base.num_digits 1 0 s)
    ok (res_shares r.0.leaf_eq stale, res_shares r.1.leaf_eq stale)
