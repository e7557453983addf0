-- ===== src/Circuit/Opened.antt =====
-- The table of `run_circuit_psi` in triangle_counting/functionalities.cpp for `PSM2`, and the words
-- that the server opens with it.
use sectric.Common.{
  ℕ, zero, suc, ◌+◌, ◌*◌, ◌<◌, ◌≤◌, ◌≡◌, refl, ap, subst, ◌∙◌, ◌⊎◌, inl, inr, ltb, get_or, List, [],
  ◌∷◌, true, bit_xor, arith, some, Bool-cases,
}
use sectric.Common.Places.{bit_and_mask}
use sectric.Common.Run.{Returns}
use sectric.Common.Fill.{fill1, fill1-hit, fill1-miss}
use sectric.Block.Sse.{Block, zero_block}
use sectric.Circuit.Table.{ts, place_masks, bit_address, cell_mask, build_table}
use sectric.Circuit.Nonces.{Separate, Serves, place_masks-placed, find_nonce-Serves}

module _ (hash : ℕ → Block → ℕ) where
  pub bit_address-lt : (mask nonce : Block) → bit_address hash mask nonce < ts
  bit_address-lt mask nonce = omega (arith, bit_and_mask 2 (hash mask.low nonce))

  module _ (ffuns : ℕ) (few : ffuns ≤ ts) (masks : ℕ → ℕ → Block) (beyond contents : ℕ → ℕ) where
    -- The nonce sends the masks of bin `i` to different cells.
    abbrev pub Fits : ℕ → Block → Type 0
    Fits i nonce = Separate ffuns (λ j. bit_address hash (masks i j) nonce)

    -- Where the cells of bin `b` take their masks from.
    abbrev pub Among : ℕ → ℕ → Type 0
    Among b c = ((j : ℕ) × (j < ffuns) × (c ≡ (masks b j).low)) ⊎ (c ≡ beyond b)

    -- Every mask of bin `b` opens the bin's word, and every cell hides it under some mask.
    pub record Opens (b : ℕ) (nonce : Block) (table : ℕ → ℕ) : Type 0 where
      pub masked :
          (j : ℕ)
          → j < ffuns
          → table (b * ts + bit_address hash (masks b j) nonce)
            ≡ bit_xor (masks b j).low (contents b)
      pub hidden :
          (k : ℕ) → k < ts → (c : ℕ) × (table (b * ts + k) ≡ bit_xor c (contents b)) × Among b c

    abbrev fill_bin : ℕ → (ℕ → ℕ) → (ℕ → ℕ) → ℕ → ℕ
    fill_bin i final table =
        fill1 ts (λ j. i * ts + j)
          (λ j. bit_xor (cell_mask ffuns masks beyond i (final j)) (contents i)) table

    fill_bin-cell :
        (i : ℕ) (final table : ℕ → ℕ) (k : ℕ)
        → k < ts
        → fill_bin i final table (i * ts + k)
          ≡ bit_xor (cell_mask ffuns masks beyond i (final k)) (contents i)
    fill_bin-cell i final table k h =
        fill1-hit ts (λ j. i * ts + j) _ (λ k k' l l' e. omega (arith, e)) table k h

    cell_mask-Among : (i k : ℕ) → Among i (cell_mask ffuns masks beyond i k)
    cell_mask-Among i k = elim (Bool-cases (ltb k ffuns)) [
      | inl inside ↦ inl (k, ground (arith, inside), rw inside refl)
      | inr outside ↦ inr (rw outside refl)
    ]

    -- The cells of bin `i` once it is filled, in any table that keeps them.
    fill_bin-Opens :
        (i : ℕ) (nonce : Block) (final table later : ℕ → ℕ)
        → place_masks (λ j. bit_address hash (masks i j) nonce) ffuns 0 (λ a. ts) ≡ some final
        → ((k : ℕ) → k < ts → later (i * ts + k) ≡ fill_bin i final table (i * ts + k))
        → Opens i nonce later
    fill_bin-Opens i nonce final table later run same = record {
      masked = λ j h.
          let small = bit_address-lt (masks i j) nonce in
          let placed =
            place_masks-placed (λ j. bit_address hash (masks i j) nonce) ffuns 0 (λ a. ts) final j
              (omega (arith, few)) run (omega arith) (omega (arith, h)) in
          let inside : ltb j ffuns ≡ true = ground (arith, h) in
          let own : cell_mask ffuns masks beyond i j ≡ (masks i j).low = rw inside refl in
          same (bit_address hash (masks i j) nonce) small
          ∙ fill_bin-cell i final table (bit_address hash (masks i j) nonce) small
          ∙ ap (λ (k : ℕ). bit_xor (cell_mask ffuns masks beyond i k) (contents i)) placed
          ∙ ap (λ (x : ℕ). bit_xor x (contents i)) own;
      hidden = λ k h. (
        cell_mask ffuns masks beyond i (final k),
        same k h ∙ fill_bin-cell i final table k h,
        cell_mask-Among i (final k),
      );
    }

    Opens-next :
        (i left : ℕ) (nonce : Block) (ns : List Block) (table : ℕ → ℕ)
        → Opens i nonce table
        → ((b : ℕ) → b < left → Opens (suc i + b) (get_or ns b zero_block) table)
        → (b : ℕ) → b < suc left
        → Opens (i + b) (get_or (nonce ∷ ns) b zero_block) table
    Opens-next i left nonce ns table first others zero h =
        let same : i ≡ i + 0 = omega arith in subst (λ k. Opens k nonce table) same first
    Opens-next i left nonce ns table first others (suc b) h =
        let same : suc i + b ≡ i + suc b = omega arith in
        subst (λ k. Opens k (get_or ns b zero_block) table) same (others b (omega (arith, h)))

    -- For at most four masks a bin, and nonces that serve all bins, the loop over the bins ends;
    -- it keeps the cells of the earlier bins, each mask of a bin opens the bin's word in the cell
    -- where the bin's nonce sends it, and every cell of the bin hides that word.
    pub build_table_lem :
        (left i : ℕ) (ns : List Block) (table : ℕ → ℕ)
        → Serves Fits left i ns
        → Returns (build_table hash ffuns masks beyond contents left i ns table) (λ r.
          ((a : ℕ) → a < i * ts → r.1 a ≡ table a)
          × ((b : ℕ) → b < left → Opens (i + b) (get_or r.0 b zero_block) r.1))
    unfolding build_table
    build_table_lem zero i ns table serves =
        (([], table), refl, (λ a h. refl, λ b h. absurd (omega (arith, h))))
    build_table_lem (suc left) i ns table serves =
        let (n, final, later, found, placed, more) =
          find_nonce-Serves Fits (λ nonce j. bit_address hash (masks i j) nonce) ffuns left i ns few
            (λ n fits. fits) (λ n apart. apart) serves in
        let (r, run, (kept, opens)) =
          build_table_lem left (suc i) later (fill_bin i final table) more in
        (
          (n ∷ r.0, r.1),
          rw (build_table, found, run) refl,
          (
            λ a h.
                kept a (omega (arith, h))
                ∙ fill1-miss ts (λ j. i * ts + j) _ (λ k k' l l' e. omega (arith, e)) table a
                    (λ k l e. omega (arith, h, e)),
            Opens-next i left n r.0 r.1
                (fill_bin-Opens i n final table r.1 placed
                  (λ k h. kept (i * ts + k) (omega (arith, h))))
                opens,
          ),
        )
