-- ===== src/Equality/Traverse/Level.antt =====
-- One level of the tree in `traverse_and_compute_ANDs` of triangle_counting/equality.h.
use sectric.Common.{
  ℕ, ◌+◌, ◌*◌, ◌/◌, ◌<◌, ◌≡◌, ◌≢◌, refl, ap, ap₂, Bool, false, xor, ◌&&◌, bit_xor, arith, lt→ltb,
}
use native.Mathlib.Nat.{mul-le-mul_right}
use sectric.Common.Places.{row_unique}
use sectric.Common.Fill.{fill2-hit, fill3-hit, fill3-miss, ApartRow, Apart2, Apart3}
use sectric.Equality.Setup.{Config}
use sectric.Equality.Beaver.{test_bit, test_bit-xor, test_bit-and, test_bit-zero, beaver}
use sectric.Equality.Traverse.{
  Packing, PartyId, alice, bob, Triples, AreTriples, Party, pairs, groups, byte_at, triple_at,
  digit_at, mask_digits, combine, product_share, multiply, level,
}

module _ (c : Config) (w : ℕ) (aligned : c.num_cmps ≡ 8 * w) where
  scaled : (t : ℕ) → t * c.num_cmps ≡ 8 * (t * w)
  scaled t = omega (arith, ap (λ (x : ℕ). t * x) aligned)

  groups_lem : groups c ≡ w
  groups_lem = omega (arith, aligned)

  byte_at_lem : (n k : ℕ) → byte_at c n k ≡ n * w + k
  byte_at_lem n k = omega (arith, scaled n)

  pub digit_at_lem : (j k u : ℕ) → digit_at c j k + u ≡ 8 * (j * w + k) + u
  digit_at_lem j k u = omega (arith, scaled j)

  comm_size_lem : (p : ℕ) → p * c.num_cmps / 8 ≡ p * w
  comm_size_lem p = omega (arith, scaled p)

  byte_row : ApartRow w (byte_at c)
  byte_row i j j' h h' e = omega (arith, e, byte_at_lem i j, byte_at_lem i j')

  byte_apart : (p : ℕ) → Apart2 p w (byte_at c)
  byte_apart p i i' j j' hi hi' h h' e =
      row_unique i i' j j' w h h' (omega (arith, e, byte_at_lem i j, byte_at_lem i' j'))

  byte_in_range : (n k p : ℕ) → n < p → k < w → byte_at c n k < p * w
  byte_in_range n k p h h' = let e = byte_at_lem n k in omega (arith, mul-le-mul_right w h)

  module _ (i : ℕ) (positive : 0 < i) where
    digit_row :
        (n : ℕ)
        → (k : ℕ) (u u' : ℕ) → u < 8
        → u' < 8
        → digit_at c (2 * i * n) k + u ≡ digit_at c (2 * i * n) k + u'
        → u ≡ u'
    digit_row n k u u' h h' e = omega arith

    digit_plane : (n : ℕ) → Apart2 w 8 (λ k u. digit_at c (2 * i * n) k + u)
    digit_plane n k k' u u' hk hk' h h' e = omega arith

    digit_apart : (p : ℕ) → Apart3 p w 8 (λ n k u. digit_at c (2 * i * n) k + u)
    digit_apart p n n' k k' u u' hn hn' hk hk' h h' e =
        let same : 2 * i * n ≡ 2 * i * n' =
          row_unique (2 * i * n) (2 * i * n') k k' w hk hk'
            (omega (arith, e, digit_at_lem (2 * i * n) k u, digit_at_lem (2 * i * n') k' u')) in
        grind arith

-- What the shares of a bit add up to.
abbrev pub opened : Party × Party → ℕ → Bool
opened s x = xor (s.0.leaf_eq x) (s.1.leaf_eq x)

-- The share of a product, bit by bit.
alice_share_bit :
    (t : Triples) (s : Party) (q tq u : ℕ)
    → test_bit (product_share alice t s q tq) u
      ≡ xor
          (xor
            (xor
              (test_bit (s.e q) u && test_bit (s.f q) u)
              (test_bit (s.f q) u && test_bit (t.ai tq) u))
            (test_bit (s.e q) u && test_bit (t.bi tq) u))
          (test_bit (t.ci tq) u)
unfolding product_share
alice_share_bit t s q tq u = simp (test_bit-xor, test_bit-and)

bob_share_bit :
    (t : Triples) (s : Party) (q tq u : ℕ)
    → test_bit (product_share bob t s q tq) u
      ≡ xor
          (xor
            (xor false (test_bit (s.f q) u && test_bit (t.ai tq) u))
            (test_bit (s.e q) u && test_bit (t.bi tq) u))
          (test_bit (t.ci tq) u)
unfolding product_share
bob_share_bit t s q tq u = simp (test_bit-xor, test_bit-and, test_bit-zero)

-- Both parties open the sums of their masked bits; the shares of the product's bit then add up to
-- the product of what their bits add up to. `mine` and `theirs` are what they sent.
pub product_opened :
    (ta tb : Triples) (ra rb a b : Party) (q tq u : ℕ) (x y x' y' : Bool)
    → AreTriples ta tb
    → u < 8
    → (ra.e q ≡ bit_xor (b.ei q) (a.ei q)) × (ra.f q ≡ bit_xor (b.fi q) (a.fi q))
    → (rb.e q ≡ bit_xor (a.ei q) (b.ei q)) × (rb.f q ≡ bit_xor (a.fi q) (b.fi q))
    → (test_bit (a.ei q) u ≡ xor (test_bit (ta.ai tq) u) x)
      × (test_bit (a.fi q) u ≡ xor (test_bit (ta.bi tq) u) y)
    → (test_bit (b.ei q) u ≡ xor (test_bit (tb.ai tq) u) x')
      × (test_bit (b.fi q) u ≡ xor (test_bit (tb.bi tq) u) y')
    → xor (test_bit (product_share alice ta ra q tq) u) (test_bit (product_share bob tb rb q tq) u)
      ≡ xor x x' && xor y y'
product_opened ta tb ra rb a b q tq u x y x' y' contract hu both both' bits bits' =
    rw
      (
        alice_share_bit,
        bob_share_bit,
        both.0,
        both.1,
        both'.0,
        both'.1,
        test_bit-xor u (b.ei q) (a.ei q),
        test_bit-xor u (b.fi q) (a.fi q),
        test_bit-xor u (a.ei q) (b.ei q),
        test_bit-xor u (a.fi q) (b.fi q),
        bits.0,
        bits.1,
        bits'.0,
        bits'.1,
      )
      (beaver x y x' y' _ _ _ _ _ _ (contract tq u hu))

module _ (p : Packing) (c : Config) (w : ℕ) (aligned : c.num_cmps ≡ 8 * w) (i : ℕ)
    (positive : 0 < i) where
  open p use {bool_to_uint8, uint8_to_bool, packed, unpacked}

  module _ (t : Triples) (count : ℕ) (s : Party) (n k u : ℕ) (hn : n < pairs c i) (hk : k < w)
      (hu : u < 8) where
    masked_e_bit :
        test_bit ((mask_digits p c t i count s).ei (byte_at c n k)) u
        ≡ xor (test_bit (t.ai (triple_at c count n k)) u) (s.leaf_eq (digit_at c (2 * i * n) k + u))
    unfolding mask_digits
    masked_e_bit =
        rw
          (
            groups_lem c w aligned,
            fill2-hit (pairs c i) w (byte_at c) _ (byte_row c w aligned)
                (byte_apart c w aligned (pairs c i)) s.ei n k hn hk,
            test_bit-xor,
          )
          (ap (xor (test_bit (t.ai (triple_at c count n k)) u)) (packed _ u hu))

    masked_f_bit :
        test_bit ((mask_digits p c t i count s).fi (byte_at c n k)) u
        ≡ xor
            (test_bit (t.bi (triple_at c count n k)) u)
            (s.leaf_eq (digit_at c (2 * i * n + i) k + u))
    unfolding mask_digits
    masked_f_bit =
        rw
          (
            groups_lem c w aligned,
            fill2-hit (pairs c i) w (byte_at c) _ (byte_row c w aligned)
                (byte_apart c w aligned (pairs c i)) s.fi n k hn hk,
            test_bit-xor,
          )
          (ap (xor (test_bit (t.bi (triple_at c count n k)) u)) (packed _ u hu))

  combined :
      (mine theirs : Party) (n k : ℕ)
      → n < pairs c i
      → k < w
      → let r = combine p c (pairs c i * c.num_cmps / 8) mine theirs in
        (r.e (byte_at c n k) ≡ bit_xor (theirs.ei (byte_at c n k)) (mine.ei (byte_at c n k)))
        × (r.f (byte_at c n k) ≡ bit_xor (theirs.fi (byte_at c n k)) (mine.fi (byte_at c n k)))
  unfolding combine
  combined mine theirs n k hn hk =
      let inside = lt→ltb _ _ (byte_in_range c w aligned n k (pairs c i) hn hk) in
      rw (comm_size_lem c w aligned (pairs c i), inside) (refl, refl)

  multiplied :
      (who : PartyId) (t : Triples) (count : ℕ) (s : Party) (n k u : ℕ)
      → n < pairs c i
      → k < w
      → u < 8
      → (multiply p c who t i count s).leaf_eq (digit_at c (2 * i * n) k + u)
        ≡ test_bit (product_share who t s (byte_at c n k) (triple_at c count n k)) u
  unfolding multiply
  multiplied who t count s n k u hn hk hu =
      rw
        (
          groups_lem c w aligned,
          fill3-hit (pairs c i) w 8 (λ n k u. digit_at c (2 * i * n) k + u) _
              (digit_row c w aligned i positive) (digit_plane c w aligned i positive)
              (digit_apart c w aligned i positive (pairs c i)) s.leaf_eq n k u hn hk hu,
        )
        (unpacked _ u hu)

  untouched :
      (who : PartyId) (t : Triples) (count : ℕ) (s : Party) (x : ℕ)
      → ((n k u : ℕ) → n < pairs c i → k < w → u < 8 → digit_at c (2 * i * n) k + u ≢ x)
      → (multiply p c who t i count s).leaf_eq x ≡ s.leaf_eq x
  unfolding multiply
  untouched who t count s x h = rw (groups_lem c w aligned) (
      fill3-miss (pairs c i) w 8 (λ n k u. digit_at c (2 * i * n) k + u) _
        (digit_row c w aligned i positive) (digit_plane c w aligned i positive)
        (digit_apart c w aligned i positive (pairs c i)) s.leaf_eq x h)

  module _ (ta tb : Triples) (contract : AreTriples ta tb) (count : ℕ) (s : Party × Party) where
    -- A level replaces each pair's first digit by the product of the pair.
    pub level_pair :
        (n k u : ℕ)
        → n < pairs c i
        → k < w
        → u < 8
        → opened (level p c ta tb i count s) (digit_at c (2 * i * n) k + u)
          ≡ opened s (digit_at c (2 * i * n) k + u) && opened s (digit_at c (2 * i * n + i) k + u)
    unfolding level
    level_pair n k u hn hk hu =
        let comm = pairs c i * c.num_cmps / 8 in
        let a = mask_digits p c ta i count s.0 in
        let b = mask_digits p c tb i count s.1 in
        rw
          (
            multiplied alice ta count (combine p c comm a b) n k u hn hk hu,
            multiplied bob tb count (combine p c comm b a) n k u hn hk hu,
          )
          (product_opened ta tb (combine p c comm a b) (combine p c comm b a) a b (byte_at c n k)
            (triple_at c count n k) u _ _ _ _ contract hu (combined a b n k hn hk)
            (combined b a n k hn hk)
            (masked_e_bit ta count s.0 n k u hn hk hu, masked_f_bit ta count s.0 n k u hn hk hu)
            (masked_e_bit tb count s.1 n k u hn hk hu, masked_f_bit tb count s.1 n k u hn hk hu))

    -- Digits that are no pair's first stay as they were.
    pub level_rest :
        (x : ℕ)
        → ((n k u : ℕ) → n < pairs c i → k < w → u < 8 → digit_at c (2 * i * n) k + u ≢ x)
        → opened (level p c ta tb i count s) x ≡ opened s x
    unfolding level mask_digits combine
    level_rest x h =
        let comm = pairs c i * c.num_cmps / 8 in
        let a = mask_digits p c ta i count s.0 in
        let b = mask_digits p c tb i count s.1 in
        ap₂ xor (untouched alice ta count (combine p c comm a b) x h)
          (untouched bob tb count (combine p c comm b a) x h)
