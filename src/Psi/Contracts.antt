-- ===== src/Psi/Contracts.antt =====
-- What triangle_counting/circuit_psi.cpp relies on: the stores, and what a run draws.
use sectric.Common.{ℕ, ◌<◌, ◌≤◌, ◌≡◌, List, map, replicate}
use sectric.Block.Sse.{Block, IsBlock, zero_block}
use sectric.Hashing.Agree.{Member}
use sectric.Equality.Traverse.{AreTriples}
use sectric.Equality.Compare.Shares.{HasTriples}
use sectric.Oprf.Agree.{AreCorrelated}
use sectric.Psi.Parties.{Draws}
use sectric.Psi.Rows.{Distinct}

-- A key-value store that is made from distinct keys and the values of a function gives them back;
-- all it gives are blocks.
pub record IsStore (encode : List Block → List Block → ℕ → Block)
    (lookup : (ℕ → Block) → Block → Block) : Type 0 where
  pub looked_up :
      (keys : List Block) (f : Block → Block) (k : Block)
      → Distinct keys
      → Member k keys
      → IsBlock (f k)
      → lookup (encode keys (map f keys)) k ≡ f k
  pub lookup-IsBlock : (t : ℕ → Block) (k : Block) → IsBlock (lookup t k)

-- The store of the pseudorandom function, solved for zeros at distinct keys.
abbrev pub SolvesZeros :
    {Seed : Type 0}
    → (Seed → List Block → List Block → ℕ → Block)
    → (Seed → (ℕ → Block) → Block → Block)
    → Type 0
SolvesZeros {Seed} solve decode =
    (s : Seed) (keys : List Block) (n : ℕ) (k : Block)
    → Distinct keys
    → Member k keys
    → decode s (solve s keys (replicate n zero_block)) k ≡ zero_block

-- What a run draws has 128 bits, its triples and its correlation satisfy their contracts, and what
-- it reads beyond the list of the occupied bins is no bin.
pub record AreDrawn (size nbins : ℕ) (mul : Block → Block → Block) (draws : Draws) : Type 0 where
  pub correlation : AreCorrelated size mul draws.delta draws.part_a draws.part_b draws.part_c
  pub values-IsBlock : (i : ℕ) → i < nbins → IsBlock (draws.random_values i)
  pub messages-IsBlock : (i : ℕ) → i < nbins → IsBlock (draws.ot_r i)
  pub triples_0 : HasTriples draws.supply_0
  pub triples_1 : HasTriples draws.supply_1
  pub triples : AreTriples draws.triples_a draws.triples_b
  pub unread : nbins ≤ draws.past
