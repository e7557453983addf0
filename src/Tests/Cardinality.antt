-- ===== src/Tests/Cardinality.antt =====
-- The count of triangle_counting/circuit_psi.cpp on concrete bins.
use sectric.Common.{
  ℕ, ◌-◌, ◌%◌, ◌^◌, ◌≡◌, true, xor, ◌==◌, if◌then◌else◌, List, [], ◌∷◌, arith, refl,
}
use sectric.Common.Run.{Returns}
use sectric.Block.Sse.{Block, IsBlock, make_block, zero_block}
use sectric.Block.Arith.{value}
use sectric.Equality.Blocks.{block_equal}
use sectric.Psi.{BlockTransfer, selected, count_shared, psi_ca}
use sectric.Psi.Rounds.{Increasing, weight}
use sectric.Psi.Total.{total, counted, count_shared_lem, psi_ca_lem}
use sectric.Tests.Shares.{packing, chosen, supply, alice_triples, bob_triples, triples}

-- The elements 30 and 40 in the bins 1 and 6 of eight.
abbrev elements : List ℕ
elements = 30 ∷ 40 ∷ []

abbrev bins : List ℕ
bins = 1 ∷ 6 ∷ []

abbrev bin_blocks : List Block
bin_blocks = make_block 0 30 ∷ make_block 2 40 ∷ []

bins-Increasing : Increasing 0 bins
bins-Increasing = (omega arith, (omega arith, tt))

abbrev random_blocks : ℕ → Block
random_blocks i = make_block (2 ^ 64 - 1) 5

abbrev direct : BlockTransfer
direct ot choices count i = selected ot choices i

count_shared_example :
    IsBlock
      (count_shared direct elements 100 random_blocks 8 bins bin_blocks (λ i. true) (λ i. i == 6))
    × (value (
          count_shared direct elements 100 random_blocks 8 bins bin_blocks
            (λ i. true)
            (λ i. i == 6))
        ≡ total 8 (λ i. counted (xor true (i == 6)) (weight elements i bins bin_blocks)) % 2 ^ 128)
count_shared_example =
    count_shared_lem elements 100 8 bins bin_blocks random_blocks bins-Increasing (omega arith)
      (λ i h. omega arith) direct (λ ot choices count i h. refl) (λ i. true) (λ i. i == 6)

abbrev decoded : ℕ → Block
decoded i = if i == 1 then make_block 7 7 else zero_block

abbrev masks : ℕ → Block
masks i = make_block 7 7

decoded-IsBlock : (i : ℕ) → IsBlock (decoded i)
decoded-IsBlock i = ground arith

psi_ca_example :
    Returns
      (psi_ca packing chosen direct supply supply alice_triples bob_triples
        (λ i. 77)
        elements
        100
        random_blocks
        8
        bins
        bin_blocks
        decoded
        masks)
      λ answer.
        value answer
        ≡ total 8
            (λ i. counted (block_equal (decoded i) (masks i)) (weight elements i bins bin_blocks))
          % 2 ^ 128
psi_ca_example =
    psi_ca_lem elements 100 8 1 bins bin_blocks random_blocks bins-Increasing (omega arith)
      (λ i h. omega arith) direct (λ ot choices count i h. refl) refl packing chosen supply supply
      alice_triples bob_triples (λ i. 77) decoded masks
      (λ c h kind count messages choices i h' bound. refl) triples triples triples
      (λ i h. (decoded-IsBlock i, omega arith))
