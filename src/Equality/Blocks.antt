-- ===== src/Equality/Blocks.antt =====
-- `perform_block_equality` of triangle_counting/functionalities.cpp: two parties, each with a
-- vector of 128-bit blocks, compute shares of which of the blocks are equal. The program's third
-- channel and the index 2 of `otpackArr` are those of the triple generator, whose output is a
-- parameter.
use sectric.Common.{
  ℕ, ◌+◌, ◌*◌, ◌/◌, ◌%◌, ◌^◌, ◌<◌, ◌≡◌, refl, ap, ap₂, ◌∙◌, Bool, true, false, xor, ◌==◌, ◌&&◌,
  if◌then◌else◌, ltb, lt→ltb, bit_xor, arith,
}
use native.Mathlib.Nat.{mod-eq_of_lt, div-add-mod, mod-lt}
use sectric.Common.Run.{Run, ok, ◌>>=◌}
use sectric.Common.Fill.{fill1, fill1-hit, fill2, fill2-hit}
use sectric.Block.Sse.{Block, IsBlock}
use sectric.Equality.Beaver.{test_bit, test_bit-xor}
use sectric.Equality.Leaf.{Transfer}
use sectric.Equality.Traverse.{
  Packing, PartyId, alice, bob, Triples, AreTriples, Party, product_share,
}
use sectric.Equality.Traverse.Level.{product_opened}
use sectric.Equality.Compare.{Supply}
use sectric.Equality.Compare.Shares.{TransfersFor, HasTriples}
use sectric.Equality.Threads.{perform_equality, perform_equality_lem}

-- `(uint64_t *)inputs.data()`: each block is its low and then its high half.
unfoldable pub words : (ℕ → Block) → ℕ → ℕ
words inputs i = if i % 2 == 0 then (inputs (i / 2)).low else (inputs (i / 2)).high

module _ (p : Packing) (size : ℕ) where
  open p use {bool_to_uint8, uint8_to_bool}

  -- `ei` and `fi`: the triple's bytes, and on them the shares of the halves' comparisons.
  unfoldable pub mask_shares : Triples → (ℕ → Bool) → (ℕ → ℕ) → Party
  mask_shares t res_shares stale = record {
    leaf_eq = res_shares;
    ei =
        fill1 ((size + 7) / 8) (λ q. q)
          (λ q.
            bit_xor (if ltb q (size / 8) then t.ai q else stale q)
              (bool_to_uint8 (λ u. res_shares (2 * (8 * q + u)))))
          stale;
    fi =
        fill1 ((size + 7) / 8) (λ q. q)
          (λ q.
            bit_xor (if ltb q (size / 8) then t.bi q else stale q)
              (bool_to_uint8 (λ u. res_shares (2 * (8 * q + u) + 1))))
          stale;
    e = stale;
    f = stale;
  }

  -- `e` and `f`: the other party's bytes and its own.
  unfoldable pub open_shares : Party → Party → Party
  open_shares mine theirs = record mine {
    e = λ q. if ltb q (size / 8) then bit_xor (theirs.ei q) (mine.ei q) else mine.e q;
    f = λ q. if ltb q (size / 8) then bit_xor (theirs.fi q) (mine.fi q) else mine.f q;
  }

  unfoldable pub and_shares : PartyId → Triples → Party → ℕ → Bool
  and_shares who t s =
      fill2 ((size + 7) / 8) 8 (λ q u. 8 * q + u) (λ q. uint8_to_bool (product_share who t s q q))
        (λ i. false)

  -- Both parties; the comparisons are of 64-bit words in digits of five bits.
  unfoldable pub perform_block_equality :
      Transfer
      → Supply
      → Supply
      → Triples
      → Triples
      → (ℕ → ℕ)
      → (ℕ → Block)
      → (ℕ → Block)
      → Run ((ℕ → Bool) × (ℕ → Bool))
  perform_block_equality ot supply_0 supply_1 ta tb stale inputs_1 inputs_2 = do
    res ←
        perform_equality p ot supply_0 supply_1 (words inputs_1) (words inputs_2) 64 5 (2 * size)
          (λ i. true)
    let a = mask_shares ta res.0 stale
    let b = mask_shares tb res.1 stale
    ok (and_shares alice ta (open_shares a b), and_shares bob tb (open_shares b a))

-- Whether two blocks are equal, by their halves.
abbrev pub block_equal : Block → Block → Bool
block_equal x y = (x.low == y.low) && (x.high == y.high)

module _ (p : Packing) (size w : ℕ) (aligned : size ≡ 8 * w) where
  open p use {packed, unpacked}

  groups : (size + 7) / 8 ≡ w
  groups = omega (arith, aligned)

  whole : size / 8 ≡ w
  whole = omega (arith, aligned)

  masked :
      (t : Triples) (res : ℕ → Bool) (stale : ℕ → ℕ) (q u : ℕ)
      → q < w
      → u < 8
      → (test_bit ((mask_shares p size t res stale).ei q) u
          ≡ xor (test_bit (t.ai q) u) (res (2 * (8 * q + u))))
        × (test_bit ((mask_shares p size t res stale).fi q) u
            ≡ xor (test_bit (t.bi q) u) (res (2 * (8 * q + u) + 1)))
  unfolding mask_shares
  masked t res stale q u h hu =
      let inside : ltb q (size / 8) ≡ true = rw whole (lt→ltb q w h) in
      (
        rw (groups, fill1-hit w (λ q. q) _ (λ i j h h' e. e) stale q h, inside, test_bit-xor)
            (ap (xor (test_bit (t.ai q) u)) (packed _ u hu)),
        rw (groups, fill1-hit w (λ q. q) _ (λ i j h h' e. e) stale q h, inside, test_bit-xor)
            (ap (xor (test_bit (t.bi q) u)) (packed _ u hu)),
      )

  share_at :
      (who : PartyId) (t : Triples) (s : Party) (q u : ℕ)
      → q < w
      → u < 8
      → and_shares p size who t s (8 * q + u) ≡ test_bit (product_share who t s q q) u
  unfolding and_shares
  share_at who t s q u h hu =
      rw
        (
          groups,
          fill2-hit w 8 (λ q u. 8 * q + u) _ (λ i j j' h h' e. omega arith)
              (λ i i' j j' hi hi' h h' e. omega arith) (λ i. false) q u h hu,
        )
        (unpacked _ u hu)

  product_lem :
      (ta tb : Triples) (res : (ℕ → Bool) × (ℕ → Bool)) (stale : ℕ → ℕ) (q u : ℕ)
      → AreTriples ta tb
      → q < w
      → u < 8
      → let a = mask_shares p size ta res.0 stale in
        let b = mask_shares p size tb res.1 stale in
        xor
          (and_shares p size alice ta (open_shares p size a b) (8 * q + u))
          (and_shares p size bob tb (open_shares p size b a) (8 * q + u))
        ≡ xor (res.0 (2 * (8 * q + u))) (res.1 (2 * (8 * q + u)))
          && xor (res.0 (2 * (8 * q + u) + 1)) (res.1 (2 * (8 * q + u) + 1))
  unfolding open_shares
  product_lem ta tb res stale q u contract h hu =
      let a = mask_shares p size ta res.0 stale in
      let b = mask_shares p size tb res.1 stale in
      let inside : ltb q (size / 8) ≡ true = rw whole (lt→ltb q w h) in
      rw
        (
          share_at alice ta (open_shares p size a b) q u h hu,
          share_at bob tb (open_shares p size b a) q u h hu,
        )
        (product_opened ta tb (open_shares p size a b) (open_shares p size b a) a b q q u _ _ _ _
          contract hu (rw inside (refl, refl)) (rw inside (refl, refl))
          (masked ta res.0 stale q u h hu) (masked tb res.1 stale q u h hu))

  word_low : (b : ℕ → Block) (i : ℕ) → IsBlock (b i) → words b (2 * i) % 2 ^ 64 ≡ (b i).low
  unfolding words
  word_low b i h =
      let even : 2 * i % 2 == 0 ≡ true = ground arith in
      let half : 2 * i / 2 ≡ i = omega arith in rw (even, half) (mod-eq_of_lt h.1)

  word_high : (b : ℕ → Block) (i : ℕ) → IsBlock (b i) → words b (2 * i + 1) % 2 ^ 64 ≡ (b i).high
  unfolding words
  word_high b i h =
      let odd : (2 * i + 1) % 2 == 0 ≡ false = ground arith in
      let half : (2 * i + 1) / 2 ≡ i = omega arith in rw (odd, half) (mod-eq_of_lt h.0)

  -- For a multiple of eight blocks of 128 bits, transfers for a radix of five bits and triples
  -- that satisfy their contracts, both parties of `perform_block_equality` end, and their shares
  -- of each place add up to whether the blocks there are equal.
  pub perform_block_equality_lem :
      (ot : Transfer) (supply_0 supply_1 : Supply) (ta tb : Triples) (stale : ℕ → ℕ)
      (inputs_1 inputs_2 : ℕ → Block)
      → TransfersFor 5 ot
      → HasTriples supply_0
      → HasTriples supply_1
      → AreTriples ta tb
      → ((i : ℕ) → i < size → IsBlock (inputs_1 i) × IsBlock (inputs_2 i))
      → (z : (ℕ → Bool) × (ℕ → Bool)) × (perform_block_equality p size ot supply_0 supply_1 ta tb
            stale inputs_1 inputs_2
          ≡ ok z)
        × ((i : ℕ) → i < size → xor (z.0 i) (z.1 i) ≡ block_equal (inputs_1 i) (inputs_2 i))
  unfolding perform_block_equality
  perform_block_equality_lem ot supply_0 supply_1 ta tb stale inputs_1 inputs_2 contract t0 t1 t
        blocks =
      let run =
        perform_equality_lem p ot 64 5 (2 * size) (2 * w) (omega (arith, aligned)) (omega arith)
          (omega arith) (omega arith) (omega arith) (omega arith) contract supply_0 supply_1
          (words inputs_1) (words inputs_2) (λ i. true) t0 t1 in
      rw run.1 (
        _,
        refl,
        λ i h.
            let q = i / 8 in
            let u = i % 8 in
            let place : 8 * q + u ≡ i = omega (arith, div-add-mod i 8) in
            let product = rw place at (
              product_lem ta tb run.0 stale q u t (omega (arith, aligned))
                (mod-lt i (omega arith))) in
            let both = blocks i h in
            product
            ∙ ap₂ (λ (v w : Bool). v && w)
                (run.2 (2 * i) (omega arith)
                  ∙ ap₂ (λ v w. v == w) (word_low inputs_1 i both.0) (word_low inputs_2 i both.1))
                (run.2 (2 * i + 1) (omega arith)
                  ∙ ap₂ (λ v w. v == w) (word_high inputs_1 i both.0)
                      (word_high inputs_2 i both.1)),
      )
