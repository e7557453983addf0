-- ===== src/Equality/Traverse.antt =====
-- `traverse_and_compute_ANDs` of triangle_counting/equality.h, run by both parties. The helpers
-- `bool_to_uint8` and `uint8_to_bool` and the triples come from a library that is not in the
-- repository, and are parameters.
pub mod Level
pub mod Tree
use sectric.Common.{
  ℕ, zero, suc, ◌+◌, ◌-◌, ◌*◌, ◌/◌, ◌^◌, ◌<◌, ◌≡◌, Bool, true, false, xor, ◌==◌, ◌&&◌,
  if◌then◌else◌, ltb, bit_xor, bit_and, Option, none, some,
}
use sectric.Common.Fill.{fill2, fill3}
use sectric.Equality.Setup.{Config}
use sectric.Equality.Beaver.{test_bit}
use sectric.Equality.Doubling.{rounds, doubling}

-- `bool_to_uint8(data, 8)` packs eight bits into a byte, the first one lowest, and
-- `uint8_to_bool(data, byte, 8)` writes them back.
pub record Packing : Type 0 where
  pub bool_to_uint8 : (ℕ → Bool) → ℕ
  pub uint8_to_bool : ℕ → ℕ → Bool
  pub packed : (bits : ℕ → Bool) (t : ℕ) → t < 8 → test_bit (bool_to_uint8 bits) t ≡ bits t
  pub unpacked : (byte t : ℕ) → t < 8 → uint8_to_bool byte t ≡ test_bit byte t

pub data PartyId : Type 0 where
  alice bob : PartyId

-- A party's shares of the bit triples, eight to a byte.
pub record Triples : Type 0 where
  pub ai : ℕ → ℕ
  pub bi : ℕ → ℕ
  pub ci : ℕ → ℕ

-- The triple generator's contract: bit by bit, the shares of `c` add up to the product of what
-- the shares of `a` and of `b` add up to.
abbrev pub AreTriples : Triples → Triples → Type 0
AreTriples s t =
    (q u : ℕ)
    → u < 8
    → xor (test_bit (s.ci q) u) (test_bit (t.ci q) u)
      ≡ xor (test_bit (s.ai q) u) (test_bit (t.ai q) u)
        && xor (test_bit (s.bi q) u) (test_bit (t.bi q) u)

-- What a party holds during the traversal.
pub record Party : Type 0 where
  pub leaf_eq : ℕ → Bool
  pub ei : ℕ → ℕ
  pub fi : ℕ → ℕ
  pub e : ℕ → ℕ
  pub f : ℕ → ℕ

-- The number of rounds of `for (j = 0; j < num_digits and j + i < num_digits; j += 2 * i)`.
abbrev pub pairs : Config → ℕ → ℕ
pairs c i = rounds c.num_digits i

-- The number of rounds of `for (m = 0; m < num_cmps; m += 8)`.
abbrev pub groups : Config → ℕ
groups c = (c.num_cmps + 7) / 8

-- Where the round with these counters keeps its byte, and where its digits stand.
abbrev pub byte_at : Config → ℕ → ℕ → ℕ
byte_at c counter k = (counter * c.num_cmps + 8 * k) / 8

abbrev pub triple_at : Config → ℕ → ℕ → ℕ → ℕ
triple_at c count counter k = (count + counter * c.num_cmps + 8 * k) / 8

abbrev pub digit_at : Config → ℕ → ℕ → ℕ
digit_at c j k = j * c.num_cmps + 8 * k

-- `temp_z` for one byte.
unfoldable pub product_share : PartyId → Triples → Party → ℕ → ℕ → ℕ
product_share who t s q tq =
    let first : ℕ = elim who [ alice ↦ bit_and (s.e q) (s.f q) | bob ↦ 0 ] in
    bit_xor (bit_xor (bit_xor first (bit_and (s.f q) (t.ai tq))) (bit_and (s.e q) (t.bi tq)))
      (t.ci tq)

module _ (p : Packing) (c : Config) where
  open p use {bool_to_uint8, uint8_to_bool}

  -- The first loop nest: the masked digits `j` and `j + i`. It writes `ei` and `fi` side by side,
  -- and reads neither before it is written.
  unfoldable pub mask_digits : Triples → ℕ → ℕ → Party → Party
  mask_digits t i triple_count s = record s {
    ei =
        fill2 (pairs c i) (groups c) (byte_at c)
          (λ n k.
            bit_xor (t.ai (triple_at c triple_count n k))
              (bool_to_uint8 (λ u. s.leaf_eq (digit_at c (2 * i * n) k + u))))
          s.ei;
    fi =
        fill2 (pairs c i) (groups c) (byte_at c)
          (λ n k.
            bit_xor (t.bi (triple_at c triple_count n k))
              (bool_to_uint8 (λ u. s.leaf_eq (digit_at c (2 * i * n + i) k + u))))
          s.fi;
  }

  -- What a party has in `e` and `f` after it received the other's bytes and added its own:
  -- `comm_size` bytes are sent each way.
  unfoldable pub combine : ℕ → Party → Party → Party
  combine comm_size mine theirs = record mine {
    e = λ q. if ltb q comm_size then bit_xor (theirs.ei q) (mine.ei q) else mine.e q;
    f = λ q. if ltb q comm_size then bit_xor (theirs.fi q) (mine.fi q) else mine.f q;
  }

  -- The second loop nest: digit `j` becomes the product's share.
  unfoldable pub multiply : PartyId → Triples → ℕ → ℕ → Party → Party
  multiply who t i old_triple_count s = record s {
    leaf_eq =
        fill3 (pairs c i) (groups c) 8 (λ n k u. digit_at c (2 * i * n) k + u)
          (λ n k.
            uint8_to_bool
              (product_share who t s (byte_at c n k) (triple_at c old_triple_count n k)))
          s.leaf_eq;
  }

  -- One level of the tree for both parties.
  unfoldable pub level : Triples → Triples → ℕ → ℕ → Party × Party → Party × Party
  level ta tb i triple_count s =
      let comm_size = pairs c i * c.num_cmps / 8 in
      let a = mask_digits ta i triple_count s.0 in
      let b = mask_digits tb i triple_count s.1 in
      (
        multiply alice ta i triple_count (combine comm_size a b),
        multiply bob tb i triple_count (combine comm_size b a),
      )

  -- The loop over the levels, `i` doubling; `none` if the fuel runs out.
  unfoldable pub levels : Triples → Triples → ℕ → ℕ → ℕ → Party × Party → Option (Party × Party)
  levels ta tb = doubling c.num_digits (λ i. pairs c i * c.num_cmps) (level ta tb)

  -- The shares `z` that the two parties write out are the first `num_cmps` digits.
  unfoldable pub traverse_and_compute_ands :
      Triples → Triples → Party × Party → Option (Party × Party)
  traverse_and_compute_ands ta tb s = levels ta tb c.num_digits 1 0 s
