-- ===== src/Tests/Oprf.antt =====
-- Runs of debug_files/vole_oprf.hpp with a store of three places and the field's product on the
-- lowest bit.
use sectric.Common.{
  ℕ, zero, suc, ◌+◌, ◌*◌, ◌/◌, ◌%◌, ◌^◌, ◌<◌, ◌≤◌, ◌≡◌, refl, ap, ap₂, if◌then◌else◌, ◌==◌, inl,
  inr, List, [], ◌∷◌, get_or, length, bit_xor, arith,
}
use native.Mathlib.Decide.{ℕ_discrete}
use sectric.Common.Bits.{bit_xor_step}
use sectric.Common.Run.{Returns}
use sectric.Block.Sse.{Block, make_block, zero_block}
use sectric.Hashing.Agree.{Member}
use sectric.Oprf.{xor_block, combine_in_place, client1, evaluate1, setup}
use sectric.Oprf.Loop.{combine_in_place_lem}
use sectric.Oprf.Sizes.{setup_lem}
use sectric.Oprf.Agree.{IsLinear, AreCorrelated, shared_key, evaluate1-client1, evaluate1_lem}

abbrev pub low_product : Block → Block → Block
low_product d a = make_block 0 (d.low % 2 * (a.low % 2))

abbrev pub three_places : Block → (ℕ → Block) → Block → Block
three_places seed table x = table (x.low % 3)

abbrev pub solved_table : Block → List Block → List Block → ℕ → Block
solved_table seed keys values j = if j == 2 then make_block 5 9 else zero_block

abbrev pub first_part : ℕ → Block
first_part j = make_block j (j + 3)

abbrev pub second_part : ℕ → Block
second_part j = make_block 7 5

abbrev pub delta : Block
delta = make_block 1 3

unfoldable pub correlation : ℕ → Block
unfolding xor_block
correlation j = xor_block (second_part j) (low_product delta (first_part j))

abbrev keys : List Block
keys = make_block 0 3 ∷ make_block 1 4 ∷ []

xor_of_bits : (u v : ℕ) → u < 2 → v < 2 → bit_xor u v ≡ (u + v) % 2
xor_of_bits zero zero h k = refl
xor_of_bits zero (suc zero) h k = refl
xor_of_bits (suc zero) zero h k = refl
xor_of_bits (suc zero) (suc zero) h k = refl
xor_of_bits (suc (suc u)) v h k = absurd (omega (arith, h))
xor_of_bits zero (suc (suc v)) h k = absurd (omega (arith, k))
xor_of_bits (suc zero) (suc (suc v)) h k = absurd (omega (arith, k))

product-lt : (u v : ℕ) → u < 2 → v < 2 → u * v < 2 ^ 64
product-lt zero v h k = omega arith
product-lt (suc zero) v h k = omega (arith, k)
product-lt (suc (suc u)) v h k = absurd (omega (arith, h))

zero_times : (v : ℕ) → 0 * v ≡ 0
zero_times v = omega arith

low_sum : (d a b : ℕ) → d % 2 * (bit_xor a b % 2) ≡ bit_xor (d % 2 * (a % 2)) (d % 2 * (b % 2))
low_sum d a b = elim (ℕ_discrete (d % 2) 0) [
  | yes even ↦ rw even (
      omega (
        arith,
        zero_times (bit_xor a b % 2),
        zero_times (a % 2),
        zero_times (b % 2),
        ap₂ bit_xor (zero_times (a % 2)) (zero_times (b % 2)),
      ))
  | no odd ↦
      let one : d % 2 ≡ 1 = omega (arith, odd) in
      let same : (v : ℕ) → 1 * (v % 2) ≡ v % 2 = λ v. omega arith in
      rw (one, same (bit_xor a b), same a, same b)
        (omega (arith, bit_xor_step a b, xor_of_bits (a % 2) (b % 2) (omega arith) (omega arith)))
]

pub three_places-IsLinear : IsLinear 3 three_places low_product
unfolding xor_block
three_places-IsLinear = record {
  decode_first = λ s t u x h. h (x.low % 3) (omega arith);
  decode_sum = λ s t u x. refl;
  decode_scaled = λ s d t x. refl;
  decode-IsBlock = λ s t x h. h (x.low % 3) (omega arith);
  mul_sum = λ d a b. ap (make_block 0) (low_sum d.low a.low b.low);
  mul-IsBlock =
      λ d a. (omega arith, product-lt (d.low % 2) (a.low % 2) (omega arith) (omega arith));
}

pub parts : AreCorrelated 3 low_product delta first_part second_part correlation
unfolding correlation
parts = record { correlated = λ j h. refl; parts-IsBlock = λ j h. (omega arith, omega arith) }

zeros : (x : Block) → Member x keys → three_places x (solved_table x keys []) x ≡ zero_block
zeros x (inl e) = rw e refl
zeros x (inr (inl e)) = rw e refl
zeros x (inr (inr m)) = absurd m

evaluate1-client1_example :
    (client1
      (λ b. b)
      solved_table
      three_places
      low_product
      keys
      4
      3
      (make_block 8 8)
      first_part
      correlation).1
    ≡ evaluate1
        (λ b. b)
        solved_table
        three_places
        low_product
        (make_block 8 8)
        (shared_key
          (λ b. b)
          solved_table
          three_places
          low_product
          3
          three_places-IsLinear
          delta
          (make_block 8 8)
          first_part
          second_part
          correlation
          parts
          keys
          4)
        keys
        4
evaluate1-client1_example =
    evaluate1-client1 (λ b. b) solved_table three_places low_product 3 three_places-IsLinear delta
      (make_block 8 8) first_part second_part correlation parts keys 4 zeros

-- Place 2 of the store is no zero, so the value of the block 5 is not the client's.
abbrev other_keys : List Block
other_keys = make_block 0 3 ∷ make_block 0 5 ∷ []

evaluate1_example :
    Returns
      (evaluate1
        (λ b. b)
        solved_table
        three_places
        low_product
        (make_block 8 8)
        (shared_key
          (λ b. b)
          solved_table
          three_places
          low_product
          3
          three_places-IsLinear
          delta
          (make_block 8 8)
          first_part
          second_part
          correlation
          parts
          keys
          4)
        other_keys
        2)
      λ output.
        (length output ≡ 2)
        × (get_or output 1 zero_block ≡ xor_block (correlation 2) (make_block 0 1))
unfolding correlation client1
evaluate1_example =
    evaluate1_lem (λ b. b) solved_table three_places low_product 3 three_places-IsLinear delta
      (make_block 8 8) first_part second_part correlation parts keys 4 2 other_keys 1 (omega arith)
      (omega arith)

combine_in_place_example : combine_in_place xor_block first_part 11 second_part 10 ≡ make_block 13 8
unfolding xor_block
combine_in_place_example = combine_in_place_lem xor_block first_part second_part 11 10

setup_example :
    let pp = setup (λ n w. (n / w + 1, w + w)) 0 9 40 in
    let made : ℕ × ℕ = (pp.input_num / pp.okvs_bin_size + 1, pp.okvs_bin_size + pp.okvs_bin_size) in
    (pp.input_num ≡ 2 ^ 9)
    × (pp.input_num < 2 ^ 64)
    × (256 ≤ pp.okvs_bin_size)
    × (pp.input_num ≤ 128 * pp.okvs_bin_size)
    × (pp.okvs_output_size ≡ made.0 * made.1)
    × (pp.key_size ≡ pp.range_size * pp.okvs_output_size)
unfolding setup
setup_example =
    setup_lem (λ n w. (n / w + 1, w + w)) 0 9 40 (omega arith) (omega arith) (omega arith)
