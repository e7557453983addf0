-- ===== src/Equality/Batch/Level.antt =====
-- One level of the tree in `traverse_and_compute_ANDs` of triangle_counting/batch_equality.h.
use sectric.Common.{ℕ, ◌+◌, ◌*◌, ◌/◌, ◌<◌, ◌≡◌, ◌≢◌, refl, ap, ap₂, xor, ◌&&◌, bit_xor, lt→ltb}
use sectric.Common.Fill.{fill3-hit, fill4-hit, fill4-miss}
use sectric.Equality.Beaver.{test_bit, test_bit-xor}
use sectric.Equality.Traverse.{
  Packing, PartyId, alice, bob, Triples, AreTriples, Party, pairs, product_share,
}
use sectric.Equality.Traverse.Level.{opened, product_opened}
use sectric.Equality.Batch.{
  BatchConfig, byte_at, triple_at, digit_at, mask_digits, combine, multiply, level,
}
use sectric.Equality.Batch.Places.{
  groups_lem, byte_row, byte_plane, byte_apart, byte_in_range, comm_size_lem, first_at, first_row,
  first_plane, first_cube, first_apart,
}

module _ (p : Packing) (c : BatchConfig) (w : ℕ) (aligned : c.base.num_cmps ≡ 8 * w)
    (some_digit : 0 < c.base.num_digits) (i : ℕ) (positive : 0 < i) where
  open p use {bool_to_uint8, uint8_to_bool, packed, unpacked}
  open c use {base, batch_size}

  module _ (t : Triples) (count : ℕ) (s : Party) (n k m u : ℕ) (hn : n < pairs base i)
      (hk : k < batch_size) (hm : m < w) (hu : u < 8) where
    masked_e_bit :
        test_bit ((mask_digits c p t i count s).ei (byte_at c n k m)) u
        ≡ xor
            (test_bit (t.ai (triple_at c count n k m)) u)
            (s.leaf_eq (digit_at c (2 * i * n) k m + u))
    unfolding mask_digits
    masked_e_bit =
        rw
          (
            groups_lem c w aligned,
            fill3-hit (pairs base i) batch_size w (byte_at c) _ (byte_row c w aligned)
                (byte_plane c w aligned) (byte_apart c w aligned (pairs base i)) s.ei n k m hn hk
                hm,
            test_bit-xor,
          )
          (ap (xor (test_bit (t.ai (triple_at c count n k m)) u)) (packed _ u hu))

    masked_f_bit :
        test_bit ((mask_digits c p t i count s).fi (byte_at c n k m)) u
        ≡ xor
            (test_bit (t.bi (triple_at c count n k m)) u)
            (s.leaf_eq (digit_at c (2 * i * n + i) k m + u))
    unfolding mask_digits
    masked_f_bit =
        rw
          (
            groups_lem c w aligned,
            fill3-hit (pairs base i) batch_size w (byte_at c) _ (byte_row c w aligned)
                (byte_plane c w aligned) (byte_apart c w aligned (pairs base i)) s.fi n k m hn hk
                hm,
            test_bit-xor,
          )
          (ap (xor (test_bit (t.bi (triple_at c count n k m)) u)) (packed _ u hu))

  combined :
      (mine theirs : Party) (n k m : ℕ)
      → n < pairs base i
      → k < batch_size
      → m < w
      → let r = combine c p (pairs base i * batch_size * base.num_cmps / 8) mine theirs in
        let q = byte_at c n k m in
        (r.e q ≡ bit_xor (theirs.ei q) (mine.ei q)) × (r.f q ≡ bit_xor (theirs.fi q) (mine.fi q))
  unfolding combine
  combined mine theirs n k m hn hk hm =
      let inside = lt→ltb _ _ (byte_in_range c w aligned n k m (pairs base i) hn hk hm) in
      rw (comm_size_lem c w aligned (pairs base i), inside) (refl, refl)

  multiplied :
      (who : PartyId) (t : Triples) (count : ℕ) (s : Party) (n k m u : ℕ)
      → n < pairs base i
      → (k < batch_size) × (m < w) × (u < 8)
      → (multiply c p who t i count s).leaf_eq (digit_at c (2 * i * n) k m + u)
        ≡ test_bit (product_share who t s (byte_at c n k m) (triple_at c count n k m)) u
  unfolding multiply
  multiplied who t count s n k m u hn inside =
      rw
        (
          groups_lem c w aligned,
          fill4-hit (pairs base i) batch_size w 8 (first_at c w aligned i positive) _
              (first_row c w aligned i positive) (first_plane c w aligned i positive)
              (first_cube c w aligned i positive some_digit) (first_apart c w aligned i positive)
              s.leaf_eq n k m u hn inside,
        )
        (unpacked _ u inside.2)

  untouched :
      (who : PartyId) (t : Triples) (count : ℕ) (s : Party) (x : ℕ)
      → ((n k m u : ℕ)
          → n < pairs base i
          → (k < batch_size) × (m < w) × (u < 8)
          → digit_at c (2 * i * n) k m + u ≢ x)
      → (multiply c p who t i count s).leaf_eq x ≡ s.leaf_eq x
  unfolding multiply
  untouched who t count s x h = rw (groups_lem c w aligned) (
      fill4-miss (pairs base i) batch_size w 8 (first_at c w aligned i positive) _
        (first_row c w aligned i positive) (first_plane c w aligned i positive)
        (first_cube c w aligned i positive some_digit) (first_apart c w aligned i positive)
        s.leaf_eq x h)

  module _ (ta tb : Triples) (contract : AreTriples ta tb) (count : ℕ) (s : Party × Party) where
    -- A level replaces each pair's first digit by the product of the pair.
    pub level_pair :
        (n k m u : ℕ)
        → n < pairs base i
        → k < batch_size
        → m < w
        → u < 8
        → opened (level c p ta tb i count s) (digit_at c (2 * i * n) k m + u)
          ≡ opened s (digit_at c (2 * i * n) k m + u)
            && opened s (digit_at c (2 * i * n + i) k m + u)
    unfolding level
    level_pair n k m u hn hk hm hu =
        let comm = pairs base i * batch_size * base.num_cmps / 8 in
        let a = mask_digits c p ta i count s.0 in
        let b = mask_digits c p tb i count s.1 in
        rw
          (
            multiplied alice ta count (combine c p comm a b) n k m u hn (hk, hm, hu),
            multiplied bob tb count (combine c p comm b a) n k m u hn (hk, hm, hu),
          )
          (product_opened ta tb (combine c p comm a b) (combine c p comm b a) a b (byte_at c n k m)
            (triple_at c count n k m) u _ _ _ _ contract hu (combined a b n k m hn hk hm)
            (combined b a n k m hn hk hm)
            (
              masked_e_bit ta count s.0 n k m u hn hk hm hu,
              masked_f_bit ta count s.0 n k m u hn hk hm hu,
            )
            (
              masked_e_bit tb count s.1 n k m u hn hk hm hu,
              masked_f_bit tb count s.1 n k m u hn hk hm hu,
            ))

    -- Digits that are no pair's first stay as they were.
    pub level_rest :
        (x : ℕ)
        → ((n k m u : ℕ)
            → n < pairs base i
            → (k < batch_size) × (m < w) × (u < 8)
            → digit_at c (2 * i * n) k m + u ≢ x)
        → opened (level c p ta tb i count s) x ≡ opened s x
    unfolding level mask_digits combine
    level_rest x h =
        let comm = pairs base i * batch_size * base.num_cmps / 8 in
        let a = mask_digits c p ta i count s.0 in
        let b = mask_digits c p tb i count s.1 in
        ap₂ xor (untouched alice ta count (combine c p comm a b) x h)
          (untouched bob tb count (combine c p comm b a) x h)
