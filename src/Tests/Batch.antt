-- ===== src/Tests/Batch.antt =====
-- The batched comparison of triangle_counting/batch_equality.h on concrete words.
use sectric.Common.{ℕ, ◌+◌, ◌*◌, ◌/◌, ◌%◌, ◌^◌, ◌<◌, ◌≡◌, refl, Bool, true, xor, ◌==◌, arith}
use sectric.Common.Loops.{for_each}
use sectric.Common.Run.{Run, ok, ◌>>=◌, Returns}
use sectric.Equality.Setup.{digit}
use sectric.Equality.Batch.{BatchConfig, Transfer, new, message, leaf_at, extract, compute_leaf_ots}
use sectric.Equality.Batch.Leaf.{compute_leaf_ots-Shared}
use sectric.Equality.Batch.Extract.{bit_at, extract_lem}
use sectric.Equality.Batch.Perform.{BatchSupply, perform_batch_equality}
use sectric.Equality.Batch.Shares.{any, matches, perform_batch_equality-any}
use sectric.Tests.Shares.{
  packing, alice_triples, bob_triples, triples, config, config-Stored, words_2,
}

-- Each receiver gets the message that it chooses.
abbrev pub chosen_message : Transfer
chosen_message kind count bits messages choices i = messages i (choices i)

abbrev pub batch_supply : BatchSupply
batch_supply = record {
  random = λ i. i % 3 == 1;
  alice_triples = alice_triples;
  bob_triples = bob_triples;
  stale = λ i. 77;
  stale_messages = λ i k. 88;
  stale_leaves = λ i. 99;
  stale_shares = λ i. true;
}

-- Words of twelve bits in digits of five, eight batches of three.
abbrev batches : BatchConfig
batches = record { base = config; batch_size = 3 }

abbrev three_words : ℕ → ℕ
three_words i = 1000 + i

three_bits : message 3 (λ m. m % 2 == 0) ≡ 5
unfolding message for_each
three_bits = refl

batch_leaves_example :
    (leaves : ℕ → Bool) × (compute_leaf_ots batches chosen_message three_words words_2
        (batch_supply.random)
        (λ i. 77)
        (λ i k. 88)
        (λ i. 99)
      ≡ ok (batch_supply.random, leaves))
    × ((m i j : ℕ)
        → m < 3
        → i < 3
        → j < 8
        → xor (batch_supply.random (leaf_at batches m i j)) (leaves (leaf_at batches m i j))
          ≡ (digit config (three_words (j * 3 + m)) i == digit config (words_2 j) i))
batch_leaves_example =
    compute_leaf_ots-Shared 12 5 8 (omega arith) (omega arith) batches config-Stored (omega arith)
      chosen_message (λ kind count bits messages choices i h bound fits. refl) three_words words_2
      (λ i. 77) batch_supply.random (λ i k. 88) (λ i. 99) (omega arith)

extract_example : extract batches (λ i. i) (bit_at batches 2 5) ≡ 5 / 2 ^ 2 % 2
extract_example = extract_lem batches (λ i. i) 5 2 (omega arith) (omega arith)

abbrev batch_run : Run ((ℕ → Bool) × (ℕ → Bool))
batch_run = do
  c ← new 12 5 3 8
  perform_batch_equality c packing chosen_message batch_supply three_words words_2

perform_batch_equality_example :
    Returns batch_run
      (λ z. (i : ℕ) → i < 8 → xor (z.0 i) (z.1 i) ≡ any 3 (matches 12 3 three_words words_2 i))
perform_batch_equality_example =
    perform_batch_equality-any packing chosen_message 12 5 3 8 1 refl (omega arith) (omega arith)
      (omega arith) (omega arith) (omega arith) (omega arith)
      (λ c h kind count bits messages choices i h' bound fits. refl) batch_supply three_words
      words_2 triples (λ i m m' h before inside e. absurd (omega (arith, h, before, inside, e)))
