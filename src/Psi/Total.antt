-- ===== src/Psi/Total.antt =====
-- The count of triangle_counting/circuit_psi.cpp: what the difference of the parties' sums is.
use sectric.Common.{
  ℕ, zero, suc, ◌+◌, ◌-◌, ◌*◌, ◌%◌, ◌^◌, ◌<◌, ◌≤◌, ◌≡◌, refl, sym, ap, ap₂, subst, ◌∙◌, inl, inr,
  Bool, false, xor, if◌then◌else◌, ltb, lt→ltb, List, [], ◌∷◌, ◌++◌, get_or, length, arith,
  Bool-cases,
}
use sectric.Common.Run.{Returns}
use sectric.Block.{add_with_carry}
use sectric.Block.Sse.{Block, IsBlock, make_block, zero_block}
use sectric.Block.Arith.{value, add_with_carry_lem, sub_with_borrow_lem}
use sectric.Equality.Leaf.{Transfer}
use sectric.Equality.Traverse.{Packing, Triples, AreTriples}
use sectric.Equality.Compare.{Supply}
use sectric.Equality.Compare.Shares.{TransfersFor, HasTriples}
use sectric.Equality.Blocks.{block_equal, perform_block_equality_lem}
use sectric.Psi.{
  ot_rounds, padded, sum_blocks, selected, BlockTransfer, SendsChosen, count_shared, psi_ca,
}
use sectric.Psi.Rounds.{Increasing, weight, weight-lt, bin_messages, ot_rounds-Sent}

-- The sum of `g` below `n`.
abbrev pub total : ℕ → (ℕ → ℕ) → ℕ
total zero g = 0
total (suc n) g = total n g + g n

-- What a bin adds to the count.
abbrev pub counted : Bool → ℕ → ℕ
counted shared w = if shared then w else 0

get_or-append_left :
    (xs ys : List Block) (i : ℕ)
    → i < length xs
    → get_or (xs ++ ys) i zero_block ≡ get_or xs i zero_block
get_or-append_left [] ys i h = elim h [ ]
get_or-append_left (x ∷ xs) ys zero h = refl
get_or-append_left (x ∷ xs) ys (suc i) h = get_or-append_left xs ys i (omega arith)

-- Sums of blocks that differ by `g`, place by place, differ by its total.
sum_blocks_difference :
    (n : ℕ) (a b : ℕ → Block) (g : ℕ → ℕ)
    → ((i : ℕ)
        → i < n
        → IsBlock (a i) × IsBlock (b i) × (value (b i) ≡ (value (a i) + g i) % 2 ^ 128))
    → IsBlock (sum_blocks n a)
      × IsBlock (sum_blocks n b)
      × (value (sum_blocks n b) ≡ (value (sum_blocks n a) + total n g) % 2 ^ 128)
unfolding sum_blocks
sum_blocks_difference zero a b g h = omega arith
sum_blocks_difference (suc n) a b g h =
    let ih = sum_blocks_difference n a b g (λ i l. h i (omega arith)) in
    let here = h n (omega arith) in
    let left = add_with_carry_lem (sum_blocks n a) (a n) ih.0 here.0 in
    let right = add_with_carry_lem (sum_blocks n b) (b n) ih.1 here.1 in
    (left.0, right.0, omega (arith, left.1, right.1, ih.2, here.2))

module _ (vec : List ℕ) (past nbins : ℕ) (idxs : List ℕ) (ck : List Block) (ot_r : ℕ → Block)
    (sorted : Increasing 0 idxs) (unread : nbins ≤ past)
    (blocks : (i : ℕ) → i < nbins → IsBlock (ot_r i)) (transfer : BlockTransfer)
    (contract : SendsChosen transfer) where
  abbrev messages : (ℕ → Bool) → List Block × List Block
  messages ans =
      let r = ot_rounds vec past ans ot_r nbins 0 idxs ck in (padded nbins r.0, padded nbins r.1)

  bin_weight : ℕ → ℕ
  bin_weight i = weight vec i idxs ck

  message_at :
      (ans choices : ℕ → Bool) (i : ℕ)
      → i < nbins
      → selected (messages ans) choices i ≡ (
          if choices i
          then (bin_messages ans ot_r i (weight vec i idxs ck)).1
          else (bin_messages ans ot_r i (weight vec i idxs ck)).0)
  message_at ans choices i h =
      let sent = ot_rounds-Sent vec past ans ot_r nbins 0 idxs ck sorted (omega arith) in
      let place : 0 + i ≡ i = omega arith in
      let both = rw place at (sent.2 i h) in
      elim (Bool-cases (choices i)) [
        | inl set ↦ rw set (get_or-append_left _ _ i (subst (λ n. i < n) (sym sent.1) h) ∙ both.1)
        | inr clear ↦
            rw clear (get_or-append_left _ _ i (subst (λ n. i < n) (sym sent.0) h) ∙ both.0)
      ]

  module _ (ans sender_ans : ℕ → Bool) where
    abbrev choices : ℕ → Bool
    choices i = if ltb i nbins then sender_ans i else false

    abbrev own : ℕ → Block
    own = selected (messages ans) ans

    abbrev received : ℕ → Block
    received = transfer (messages ans) choices (nbins + (128 - nbins % 128))

    abbrev added : ℕ → ℕ
    added i = counted (xor (ans i) (sender_ans i)) (weight vec i idxs ck)

    own_at : (i : ℕ) → i < nbins → own i ≡ ot_r i
    own_at i h =
        message_at ans ans i h
        ∙ elim (Bool-cases (ans i)) [ inl set ↦ rw set refl | inr clear ↦ rw clear refl ]

    received_at :
        (i : ℕ)
        → i < nbins
        → IsBlock (received i) × (value (received i) ≡ (value (ot_r i) + added i) % 2 ^ 128)
    unfolding xor
    received_at i h =
        let inside = lt→ltb i nbins h in
        let choice : choices i ≡ sender_ans i = rw inside refl in
        let w = weight vec i idxs ck in
        let w_block : IsBlock (make_block 0 w) = omega (arith, weight-lt vec i idxs ck) in
        let block = blocks i h in
        let sum = add_with_carry_lem (ot_r i) (make_block 0 w) block w_block in
        let grown : value (add_with_carry (ot_r i) (make_block 0 w))
            ≡ (value (ot_r i) + w) % 2 ^ 128 =
          omega (arith, sum.1) in
        let plain : value (ot_r i) ≡ (value (ot_r i) + 0) % 2 ^ 128 = omega (arith, block) in
        rw
          (
            contract (messages ans) choices (nbins + (128 - nbins % 128)) i (omega arith),
            message_at ans choices i h,
            choice,
          )
          (elim (Bool-cases (ans i)) [
            | inl set ↦ elim (Bool-cases (sender_ans i)) [
              | inl chosen ↦ rw (set, chosen) (block, plain)
              | inr chosen ↦ rw (set, chosen) (sum.0, grown)
            ]
            | inr clear ↦ elim (Bool-cases (sender_ans i)) [
              | inl chosen ↦ rw (clear, chosen) (sum.0, grown)
              | inr chosen ↦ rw (clear, chosen) (block, plain)
            ]
          ])

    -- For occupied bins in increasing order, a read beyond their vector that gives no number of a
    -- bin, random blocks of 128 bits and transfers that give the chosen message, the difference
    -- of the sender's and the receiver's sums is a block, and modulo 2 ^ 128 it is the sum over
    -- the bins of the value of the bin's element where the parties' bits differ.
    pub count_shared_lem :
        IsBlock (count_shared transfer vec past ot_r nbins idxs ck ans sender_ans)
        × (value (count_shared transfer vec past ot_r nbins idxs ck ans sender_ans)
            ≡ total nbins added % 2 ^ 128)
    unfolding count_shared
    count_shared_lem =
        let sums = sum_blocks_difference nbins own received added (λ i h.
          let at_own = own_at i h in
          let there = received_at i h in
          (
            subst IsBlock (sym at_own) (blocks i h),
            there.0,
            there.1 ∙ ap (λ (b : Block). (value b + added i) % 2 ^ 128) (sym at_own),
          )) in
        let difference =
          sub_with_borrow_lem (sum_blocks nbins received) (sum_blocks nbins own) sums.1 sums.0 in
        (difference.0, omega (arith, difference.1, sums))

total-cong : (n : ℕ) (f g : ℕ → ℕ) → ((i : ℕ) → i < n → f i ≡ g i) → total n f ≡ total n g
total-cong zero f g h = refl
total-cong (suc n) f g h =
    ap₂ (λ (x y : ℕ). x + y) (total-cong n f g (λ i l. h i (omega arith))) (h n (omega arith))

module _ (vec : List ℕ) (past nbins w : ℕ) (idxs : List ℕ) (ck : List Block) (ot_r : ℕ → Block)
    (sorted : Increasing 0 idxs) (unread : nbins ≤ past)
    (blocks : (i : ℕ) → i < nbins → IsBlock (ot_r i)) (transfer : BlockTransfer)
    (contract : SendsChosen transfer) (aligned : nbins ≡ 8 * w) where
  -- For occupied bins in increasing order, a read beyond their vector that gives no number of a
  -- bin, a multiple of eight bins, blocks of 128 bits, and transfers and triples that satisfy
  -- their contracts, both parties end, and the receiver's difference of the two sums is, modulo 2
  -- ^ 128, the sum over the bins of the value of the bin's element where the receiver's and the
  -- sender's blocks are equal.
  pub psi_ca_lem :
      (p : Packing) (ot : Transfer) (supply_0 supply_1 : Supply) (ta tb : Triples) (stale : ℕ → ℕ)
      (eq_blocks random_values : ℕ → Block)
      → TransfersFor 5 ot
      → HasTriples supply_0
      → HasTriples supply_1
      → AreTriples ta tb
      → ((i : ℕ) → i < nbins → IsBlock (eq_blocks i) × IsBlock (random_values i))
      → Returns
          (psi_ca p ot transfer supply_0 supply_1 ta tb stale vec past ot_r nbins idxs ck eq_blocks
            random_values)
          λ answer.
            value answer
            ≡ total nbins
                (λ i. counted (block_equal (eq_blocks i) (random_values i)) (weight vec i idxs ck))
              % 2 ^ 128
  unfolding psi_ca
  psi_ca_lem p ot supply_0 supply_1 ta tb stale eq_blocks random_values transfers t0 t1 t inputs =
      let compared =
        perform_block_equality_lem p nbins w aligned ot supply_0 supply_1 ta tb stale eq_blocks
          random_values transfers t0 t1 t inputs in
      let answer =
        count_shared_lem vec past nbins idxs ck ot_r sorted unread blocks transfer contract
          compared.0.0 compared.0.1 in
      (
        _,
        rw compared.1 refl,
        answer.1
            ∙ ap (λ (n : ℕ). n % 2 ^ 128)
                (total-cong nbins _ _
                  (λ i h. ap (λ shared. counted shared (weight vec i idxs ck)) (compared.2 i h))),
      )
