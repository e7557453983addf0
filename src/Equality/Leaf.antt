-- ===== src/Equality/Leaf.antt =====
-- `computeLeafOTs` of triangle_counting/equality.h. The oblivious transfers are not in the
-- repository: a transfer of a kind takes the number of instances, the sender's messages and the
-- receiver's choices, and gives what the receiver gets.
pub mod Receive
pub mod Shares
use sectric.Common.{ℕ, ◌+◌, ◌-◌, ◌*◌, ◌^◌, ◌<◌, ◌≡◌, Bool, not, xor, ◌==◌, ◌&&◌, if◌then◌else◌, ltb}
use sectric.Common.Run.{Run, ok, fault, ◌>>=◌, invalid_argument}
use sectric.Common.Fill.{fill1}
use sectric.Equality.Setup.{Config, digits}

pub data OtKind : Type 0 where
  kkot_beta iknp_straight kkot_4 kkot_8 kkot_16 : OtKind

-- How many messages an instance has; `kkot_beta` is set up for `beta_pow` of them.
abbrev pub arity : Config → OtKind → ℕ
arity c kkot_beta = c.beta_pow
arity c iknp_straight = 2
arity c kkot_4 = 4
arity c kkot_8 = 8
arity c kkot_16 = 16

abbrev pub TransferOf : Type 0 → Type 0
TransferOf V = OtKind → ℕ → (ℕ → ℕ → V) → (ℕ → ℕ) → ℕ → V

abbrev pub Transfer : Type 0
Transfer = TransferOf Bool

-- Oblivious transfer gives the receiver the message of its choice.
abbrev pub Transfers : Config → Transfer → Type 0
Transfers c ot =
    (k : OtKind) (count : ℕ) (messages : ℕ → ℕ → Bool) (choices : ℕ → ℕ) (i : ℕ)
    → i < count
    → choices i < arity c k
    → ot k count messages choices i ≡ messages i (choices i)

-- The messages of one instance: the first `n` of them say whether the digit is that number,
-- under the mask.
unfoldable pub set_leaf_ot_messages : ℕ → ℕ → Bool → (ℕ → Bool) → ℕ → Bool
set_leaf_ot_messages digit n mask_byte stale =
    fill1 n (λ k. k) (λ k. xor (digit == k) mask_byte) stale

-- All instances of the sender, by the index `i * num_cmps + j`. The row `i` is the last one from
-- `num_cmps * (num_digits - 1)` on.
unfoldable pub leaf_messages : Config → (ℕ → ℕ) → (ℕ → Bool) → (ℕ → ℕ → Bool) → ℕ → ℕ → Bool
leaf_messages c digits leaf_eq stale index =
    let last = not (ltb index (c.num_cmps * (c.num_digits - 1))) in
    set_leaf_ot_messages (digits index) (if last && not (c.r == 0) then 2 ^ c.r else c.beta_pow)
      (leaf_eq index) (stale index)

-- The transfer of the last row, by the length of its digits.
unfoldable pub last_kind : ℕ → Run OtKind
last_kind r =
    if r == 1
    then ok iknp_straight
    else if r == 2
    then ok kkot_4
    else if r == 3
    then ok kkot_8
    else if r == 4
    then ok kkot_16
    else fault invalid_argument

-- What the receiver's `leaf_eq` holds after the transfers.
unfoldable pub receive_leaves :
    {V : Type 0} → TransferOf V → Config → (ℕ → ℕ → V) → (ℕ → ℕ) → (ℕ → V) → Run (ℕ → V)
receive_leaves ot c messages digits stale =
    let full = c.num_cmps * c.num_digits in
    let head = c.num_cmps * (c.num_digits - 1) in
    if c.r == 0
    then ok (λ i. if ltb i full then ot kkot_beta full messages digits i else stale i)
    else do
      kind ← last_kind c.r
      ok (λ i.
          if ltb i head
          then ot kkot_beta head messages digits i
          else if ltb i full
          then ot kind c.num_cmps (λ k. messages (head + k)) (λ k. digits (head + k)) (i - head)
          else stale i)

-- Both parties: the sender (ALICE) keeps its random bits, the receiver (BOB) what it received.
unfoldable pub compute_leaf_ots :
    Transfer
    → Config
    → (ℕ → ℕ)
    → (ℕ → ℕ)
    → (ℕ → Bool)
    → (ℕ → ℕ)
    → (ℕ → ℕ → Bool)
    → (ℕ → Bool)
    → Run ((ℕ → Bool) × (ℕ → Bool))
compute_leaf_ots ot c alice_words bob_words random stale stale_messages stale_leaves = do
  leaves ←
      receive_leaves ot c (leaf_messages c (digits c alice_words stale) random stale_messages)
        (digits c bob_words stale) stale_leaves
  ok (random, leaves)
