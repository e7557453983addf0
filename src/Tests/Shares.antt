-- ===== src/Tests/Shares.antt =====
-- The comparison of shared values in triangle_counting/equality.h and
-- triangle_counting/functionalities.cpp on concrete words.
use sectric.Common.{
  ℕ, zero, suc, ◌+◌, ◌*◌, ◌/◌, ◌%◌, ◌<◌, ◌≡◌, refl, ap₂, sym, ◌∙◌, Bool, true, false, xor, ◌==◌,
  ◌&&◌, if◌then◌else◌, bit_xor, arith, some,
}
use sectric.Common.Run.{ok}
use sectric.Block.Sse.{Block, make_block}
use sectric.Equality.Beaver.{test_bit, test_bit-xor, test_bit-and}
use sectric.Equality.Conj.{conj}
use sectric.Equality.Setup.{Config, digit}
use sectric.Equality.Setup.Digits.{Stored}
use sectric.Equality.Leaf.{Transfer, compute_leaf_ots}
use sectric.Equality.Leaf.Shares.{compute_leaf_ots_lem}
use sectric.Equality.Traverse.{Packing, Triples, AreTriples, Party, traverse_and_compute_ands}
use sectric.Equality.Traverse.Tree.{column, traverse_and_compute_ands_lem}
use sectric.Equality.Compare.{Supply}
use sectric.Equality.Compare.Shares.{ShareEquality}
use sectric.Equality.Threads.{perform_equality, perform_equality_lem}
use sectric.Equality.Blocks.{perform_block_equality, block_equal, perform_block_equality_lem}

abbrev pub pack : ℕ → (ℕ → Bool) → ℕ
pack zero bits = 0
pack (suc n) bits = (if bits 0 then 1 else 0) + 2 * pack n (λ t. bits (suc t))

pub pack-bit : (n : ℕ) (bits : ℕ → Bool) (t : ℕ) → t < n → test_bit (pack n bits) t ≡ bits t
unfolding test_bit
pack-bit zero bits t h = absurd (omega arith)
pack-bit (suc n) bits zero h = ground arith
pack-bit (suc n) bits (suc t) h =
    elim (bits 0)
      as (λ b.
        test_bit (((if b then 1 else 0) + 2 * pack n (λ t. bits (suc t))) / 2) t ≡ bits (suc t)) [
          | true ↦
              let half : (1 + 2 * pack n (λ t. bits (suc t))) / 2 ≡ pack n (λ t. bits (suc t)) =
                omega arith in
              rw half (pack-bit n (λ t. bits (suc t)) t (omega arith))
          | false ↦
              let half : (0 + 2 * pack n (λ t. bits (suc t))) / 2 ≡ pack n (λ t. bits (suc t)) =
                omega arith in
              rw half (pack-bit n (λ t. bits (suc t)) t (omega arith))
        ]

abbrev pub packing : Packing
packing = record {
  bool_to_uint8 = pack 8;
  uint8_to_bool = test_bit;
  packed = pack-bit 8;
  unpacked = λ byte t h. refl;
}

-- Each receiver gets the message that it chooses.
abbrev pub chosen : Transfer
chosen kind count messages choices i = messages i (choices i)

abbrev pub alice_triples : Triples
alice_triples = record { ai = λ q. 12; bi = λ q. 10; ci = λ q. 1 }

abbrev pub bob_triples : Triples
bob_triples = record { ai = λ q. 6; bi = λ q. 3; ci = λ q. 9 }

pub triples : AreTriples alice_triples bob_triples
triples q u h =
    sym (test_bit-xor u 1 9)
    ∙ test_bit-and u (bit_xor 12 6) (bit_xor 10 3)
    ∙ ap₂ (λ (a b : Bool). a && b) (test_bit-xor u 12 6) (test_bit-xor u 10 3)

abbrev pub supply : Supply
supply = record {
  random = λ i. i % 3 == 1;
  alice_triples = alice_triples;
  bob_triples = bob_triples;
  stale = λ i. 77;
  stale_messages = λ i k. true;
  stale_leaves = λ i. false;
}

-- Words of twelve bits in digits of five, eight of them.
abbrev pub config : Config
config = record {
  l = 12;
  beta = 5;
  num_cmps = 8;
  num_digits = 3;
  r = 2;
  num_triples = 2;
  mask_beta = 31;
  mask_r = 3;
  beta_pow = 32;
  total_triples_count = 96;
}

pub config-Stored : Stored 12 5 8 config
config-Stored = (refl, refl, refl, refl, refl, refl, refl, refl)

abbrev pub words_1 : ℕ → ℕ
words_1 i = 1000 + i

abbrev pub words_2 : ℕ → ℕ
words_2 i = 1000 + 2 * i

compute_leaf_ots_example :
    (leaves : ℕ → Bool) × (compute_leaf_ots chosen config words_1 words_2
        (supply.random)
        (λ i. 77)
        (λ i k. true)
        (λ i. false)
      ≡ ok (supply.random, leaves))
    × ((i j : ℕ)
        → i < 3
        → j < 8
        → xor (supply.random (i * 8 + j)) (leaves (i * 8 + j))
          ≡ (digit config (words_1 j) i == digit config (words_2 j) i))
compute_leaf_ots_example =
    compute_leaf_ots_lem 12 5 8 (omega arith) (omega arith) config config-Stored chosen
      (λ kind count messages choices i h bound. refl) words_1 words_2 (λ i. 77) supply.random
      (λ i k. true) (λ i. false) (omega arith)

abbrev party : (ℕ → Bool) → Party
party leaves = record { leaf_eq = leaves; ei = λ i. 77; fi = λ i. 77; e = λ i. 77; f = λ i. 77 }

abbrev parties : Party × Party
parties = (party (λ i. true), party (λ i. i == 9))

traverse_and_compute_ands_example :
    (r : Party × Party) × (traverse_and_compute_ands packing config alice_triples bob_triples
        parties
      ≡ some r)
    × ((k u : ℕ)
        → k < 1
        → u < 8
        → column config 1 refl r k u 0 ≡ conj (column config 1 refl parties k u) 0 3)
traverse_and_compute_ands_example =
    traverse_and_compute_ands_lem config 1 refl packing alice_triples bob_triples triples parties
      (omega arith)

perform_equality_example :
    (z : (ℕ → Bool) × (ℕ → Bool)) × (perform_equality packing chosen supply supply words_1 words_2
        12 5 24
        (λ i. true)
      ≡ ok z)
    × ShareEquality 12 24 words_1 words_2 z
perform_equality_example =
    perform_equality_lem packing chosen 12 5 24 3 refl (omega arith) (omega arith) (omega arith)
      (omega arith) (omega arith) (λ c h kind count messages choices i h' bound. refl) supply supply
      words_1 words_2 (λ i. true) triples triples

abbrev blocks_1 : ℕ → Block
blocks_1 i = make_block 5 3

abbrev blocks_2 : ℕ → Block
blocks_2 i = if i % 2 == 0 then make_block 5 3 else make_block 5 4

perform_block_equality_example :
    (z : (ℕ → Bool) × (ℕ → Bool)) × (perform_block_equality packing 8 chosen supply supply
        alice_triples bob_triples
        (λ i. 77)
        blocks_1
        blocks_2
      ≡ ok z)
    × ((i : ℕ) → i < 8 → xor (z.0 i) (z.1 i) ≡ block_equal (blocks_1 i) (blocks_2 i))
perform_block_equality_example =
    perform_block_equality_lem packing 8 1 refl chosen supply supply alice_triples bob_triples
      (λ i. 77) blocks_1 blocks_2 (λ c h kind count messages choices i h' bound. refl) triples
      triples triples (λ i h. ground arith)
