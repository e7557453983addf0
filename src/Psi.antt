-- ===== src/Psi.antt =====
-- The end of `psi_ca_receiver` and `psi_ca_sender` in triangle_counting/circuit_psi.cpp: from the
-- blocks of the bins to the count. The receiver's random blocks and the transfer are parameters.
pub mod Rounds
pub mod Total
pub mod Occupied
pub mod Parties
pub mod Cells
pub mod Rows
pub mod Shared
pub mod Contracts
pub mod Intersection
pub mod Answer
pub mod Sizes
use sectric.Common.{
  ℕ, zero, suc, ◌+◌, ◌-◌, ◌/◌, ◌%◌, ◌<◌, ◌≡◌, Bool, true, false, ◌==◌, ◌||◌, if◌then◌else◌, ltb,
  List, [], ◌∷◌, ◌++◌, get_or, replicate,
}
use sectric.Common.Run.{Run, ok, ◌>>=◌}
use sectric.Block.{add_with_carry, sub_with_borrow}
use sectric.Block.Sse.{Block, make_block, zero_block}
use sectric.Equality.Leaf.{Transfer}
use sectric.Equality.Traverse.{Packing, Triples}
use sectric.Equality.Compare.{Supply}
use sectric.Equality.Blocks.{perform_block_equality}

-- `map`, filled with the value 1 for each element; `operator[]` gives 0 for any other key.
unfoldable pub element_value : List ℕ → ℕ → ℕ
element_value [] key = 0
element_value (x ∷ xs) key = let later = element_value xs key in if x == key then 1 else later

-- `v[j]` for the rest of a vector from place `j` on; beyond its end, what the memory holds.
abbrev pub front {ℓ} : {A : Type ℓ} → A → List A → A
front past [] = past
front past (x ∷ xs) = x

abbrev pub advance {ℓ} : {A : Type ℓ} → Bool → List A → List A
advance false xs = xs
advance true [] = []
advance true (x ∷ xs) = xs

-- The block that an occupied bin adds.
unfoldable pub block_0 : List ℕ → Bool → List Block → Block
block_0 vec occupied ck =
    if occupied then make_block 0 (element_value vec (front zero_block ck).low) else zero_block

-- `ot[0]` and `ot[1]`: `left` rounds from bin `i` on. The lists are what is left of `idxs` and
-- `ck` from place `j` on, and `past` is what is read beyond the end of `idxs`.
unfoldable pub ot_rounds :
    List ℕ → ℕ → (ℕ → Bool) → (ℕ → Block) → ℕ → ℕ → List ℕ → List Block → List Block × List Block
ot_rounds vec past ans ot_r zero i idxs ck = ([], [])
ot_rounds vec past ans ot_r (suc left) i idxs ck =
    let occupied = i == front past idxs in
    let other = add_with_carry (ot_r i) (block_0 vec occupied ck) in
    let rest =
      ot_rounds vec past ans ot_r left (suc i) (advance occupied idxs) (advance occupied ck) in
    if ans i then (other ∷ rest.0, ot_r i ∷ rest.1) else (ot_r i ∷ rest.0, other ∷ rest.1)

-- The padding of both vectors.
abbrev pub padded : ℕ → List Block → List Block
padded nbins ot = ot ++ replicate (128 - nbins % 128) zero_block

-- The loop that adds up `nbins` blocks.
unfoldable pub sum_blocks : ℕ → (ℕ → Block) → Block
sum_blocks zero blocks = zero_block
sum_blocks (suc n) blocks = add_with_carry (sum_blocks n blocks) (blocks n)

-- `ot[ans[i]][i]`
abbrev pub selected : List Block × List Block → (ℕ → Bool) → ℕ → Block
selected ot ans i = get_or (if ans i then ot.1 else ot.0) i zero_block

-- `IKNPOTE::Send` and `Receive`: the messages, the choices and their number give the blocks that
-- the receiver of the transfer gets.
abbrev pub BlockTransfer : Type 0
BlockTransfer = List Block × List Block → (ℕ → Bool) → ℕ → ℕ → Block

-- The receiver of the transfer gets the message of its choice.
abbrev pub SendsChosen : BlockTransfer → Type 0
SendsChosen transfer =
    (ot : List Block × List Block) (choices : ℕ → Bool) (count i : ℕ)
    → i < count
    → transfer ot choices count i ≡ selected ot choices i

-- What both parties do with their shares of the comparison: the sender adds up the blocks that it
-- gets and sends the sum, the receiver subtracts the sum of its own. The choices beyond the bins
-- are 0.
unfoldable pub count_shared :
    BlockTransfer
    → List ℕ
    → ℕ
    → (ℕ → Block)
    → ℕ
    → List ℕ
    → List Block
    → (ℕ → Bool)
    → (ℕ → Bool)
    → Block
count_shared transfer vec past ot_r nbins idxs ck ans sender_ans =
    let rounds = ot_rounds vec past ans ot_r nbins 0 idxs ck in
    let ot : List Block × List Block = (padded nbins rounds.0, padded nbins rounds.1) in
    let choices : ℕ → Bool = λ i. if ltb i nbins then sender_ans i else false in
    let received = transfer ot choices (nbins + (128 - nbins % 128)) in
    let psi_ca_ans = sum_blocks nbins (selected ot ans) in
    let psi_ca_tmp = sum_blocks nbins received in sub_with_borrow psi_ca_tmp psi_ca_ans

-- Both parties from the blocks of the bins on: the receiver, which is party 1, has what it decoded,
-- the sender the random block of each bin.
unfoldable pub psi_ca :
    Packing
    → Transfer
    → BlockTransfer
    → Supply
    → Supply
    → Triples
    → Triples
    → (ℕ → ℕ)
    → List ℕ
    → ℕ
    → (ℕ → Block)
    → ℕ
    → List ℕ
    → List Block
    → (ℕ → Block)
    → (ℕ → Block)
    → Run Block
psi_ca p ot transfer supply_0 supply_1 ta tb stale vec past ot_r nbins idxs ck eq_blocks
      random_values =
    do
      ans ← perform_block_equality p nbins ot supply_0 supply_1 ta tb stale eq_blocks random_values
      ok (count_shared transfer vec past ot_r nbins idxs ck ans.0 ans.1)
