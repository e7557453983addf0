-- ===== src/Oprf/Bytes.antt =====
-- The conversions between blocks and bytes in debug_files/vole_oprf.hpp.
use sectric.Common.{
  ℕ, zero, suc, ◌*◌, ◌/◌, ◌≡◌, refl, ap, ap₂, subst, some, List, [], ◌∷◌, ◌++◌, length,
  length-append, arith,
}
use mathlib.Core.List.{append-nil}
use sectric.Block.Sse.{Block}
use sectric.Graph.{write, write_blocks, read_blocks}
use sectric.Graph.RoundTrip.{AreBlocks, read_blocks-write_blocks}
use sectric.Oprf.{block_to_byte, byte_to_block, block_to_v8, v8_to_block}

pub length-write : (k n : ℕ) → length (write k n) ≡ k
unfolding write
length-write zero n = refl
length-write (suc k) n = ap suc (length-write k (n / 256))

pub length-write_blocks : (bs : List Block) → length (write_blocks bs) ≡ 16 * length bs
unfolding write_blocks
length-write_blocks [] = refl
length-write_blocks (b ∷ bs) = omega (
  arith,
  length-append (write 8 b.low) (write 8 b.high ++ write_blocks bs),
  length-append (write 8 b.high) (write_blocks bs),
  length-write 8 b.low,
  length-write 8 b.high,
  length-write_blocks bs,
)

-- `ByteToBlock` gives back the blocks of two 64-bit values that `BlockToByte` copied.
pub byte_to_block-block_to_byte :
    (bs : List Block) → AreBlocks bs → byte_to_block (block_to_byte bs) ≡ bs
unfolding byte_to_block block_to_byte
byte_to_block-block_to_byte bs h =
    let count : length (write_blocks bs) / 16 ≡ length bs = omega (arith, length-write_blocks bs) in
    let back : read_blocks (length bs) (write_blocks bs) ≡ some (bs, []) =
      subst (λ xs. read_blocks (length bs) xs ≡ some (bs, [])) (append-nil (write_blocks bs))
        (read_blocks-write_blocks bs [] h) in
    rw (count, back, byte_to_block) refl

-- `V8ToBlock` gives back the blocks of two 64-bit values that `BlockToV8` copied, whatever the
-- memory holds beyond a row.
pub v8_to_block-block_to_v8 :
    (past : Block) (bs : List Block) → AreBlocks bs → v8_to_block past (block_to_v8 bs) ≡ bs
unfolding v8_to_block block_to_v8
v8_to_block-block_to_v8 past [] h = refl
v8_to_block-block_to_v8 past (b ∷ bs) h =
    let row : read_blocks 1 (write_blocks (b ∷ [])) ≡ some (b ∷ [], []) =
      subst (λ xs. read_blocks 1 xs ≡ some (b ∷ [], [])) (append-nil (write_blocks (b ∷ [])))
        (read_blocks-write_blocks (b ∷ []) [] (h.0, tt)) in
    ap₂ (λ x (xs : List Block). x ∷ xs) (rw row refl) (v8_to_block-block_to_v8 past bs h.1)
