-- ===== src/Oprf/Xor.antt =====
-- The laws of `a ^ b` on blocks.
use sectric.Common.{◌≡◌, ap, ap₂, ◌∙◌, sym}
use sectric.Common.Bits.{bit_xor_comm, bit_xor_assoc, bit_xor_self, zero-bit_xor, bit_xor-lt}
use sectric.Block.Sse.{Block, IsBlock, make_block, zero_block}
use sectric.Oprf.{xor_block}

pub xor_block_comm : (a b : Block) → xor_block a b ≡ xor_block b a
unfolding xor_block
xor_block_comm a b = ap₂ make_block (bit_xor_comm a.high b.high) (bit_xor_comm a.low b.low)

pub xor_block_assoc : (a b c : Block) → xor_block (xor_block a b) c ≡ xor_block a (xor_block b c)
unfolding xor_block
xor_block_assoc a b c =
    ap₂ make_block (bit_xor_assoc a.high b.high c.high) (bit_xor_assoc a.low b.low c.low)

pub xor_block_self : (a : Block) → xor_block a a ≡ zero_block
unfolding xor_block
xor_block_self a = ap₂ make_block (bit_xor_self a.high) (bit_xor_self a.low)

pub zero-xor_block : (a : Block) → xor_block zero_block a ≡ a
unfolding xor_block
zero-xor_block a = ap₂ make_block (zero-bit_xor a.high) (zero-bit_xor a.low)

pub xor_block-zero : (a : Block) → xor_block a zero_block ≡ a
xor_block-zero a = xor_block_comm a zero_block ∙ zero-xor_block a

-- What is masked twice by one block is the block itself.
pub xor_block_cancel : (a b : Block) → xor_block (xor_block a b) b ≡ a
xor_block_cancel a b =
    xor_block_assoc a b b ∙ ap (xor_block a) (xor_block_self b) ∙ xor_block-zero a

pub xor_block_swap : (a b c : Block) → xor_block a (xor_block b c) ≡ xor_block (xor_block a c) b
xor_block_swap a b c = ap (xor_block a) (xor_block_comm b c) ∙ sym (xor_block_assoc a c b)

pub xor_block-IsBlock : (a b : Block) → IsBlock a → IsBlock b → IsBlock (xor_block a b)
unfolding xor_block
xor_block-IsBlock a b h k = (bit_xor-lt 64 a.high b.high h.0 k.0, bit_xor-lt 64 a.low b.low h.1 k.1)
