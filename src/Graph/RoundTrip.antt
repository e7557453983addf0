-- ===== src/Graph/RoundTrip.antt =====
-- Reading the files that triangle_counting/triangle.h writes.
use sectric.Common.{
  ℕ, zero, suc, ◌*◌, ◌/◌, ◌%◌, ◌^◌, ◌<◌, ◌≡◌, refl, sym, ap, ◌∙◌, some, List, [], ◌∷◌, ◌++◌, length,
  arith,
}
use native.Mathlib.Nat.{mod-one, mod-eq_of_lt, pow-suc}
use sectric.Common.Places.{mod-mul}
use mathlib.Core.List.{append_assoc}
use sectric.Common.Run.{Returns}
use sectric.Block.Sse.{Block, IsBlock}
use sectric.Graph.{
  write, read, write_blocks, read_blocks, save_vector_to_file, read_vector, load_vector_from_file,
  write_rows, read_rows, save_vector_of_vectors_to_file, load_vector_of_vectors_from_file,
}

-- Every block of the list holds two 64-bit values; in a table, the lengths of the rows have 64
-- bits.
abbrev pub AreBlocks : List Block → Type 0
AreBlocks [] = Unit
AreBlocks (b ∷ bs) = IsBlock b × AreBlocks bs

abbrev pub AreRows : List (List Block) → Type 0
AreRows [] = Unit
AreRows (row ∷ rows) = AreBlocks row × (length row < 2 ^ 64) × AreRows rows

pub read-write : (k n : ℕ) (rest : List ℕ) → read k (write k n ++ rest) ≡ some (n % 256 ^ k, rest)
unfolding read write
read-write zero n rest = ap (λ (m : ℕ). some (m, rest)) (sym (mod-one n))
read-write (suc k) n rest =
    let power : 256 ^ suc k ≡ 256 * 256 ^ k = omega (arith, pow-suc 256 k) in
    rw (read-write k (n / 256) rest, power, mod-mul n 256 (256 ^ k) (omega arith)) refl

pub read_u64 : (n : ℕ) (rest : List ℕ) → n < 2 ^ 64 → read 8 (write 8 n ++ rest) ≡ some (n, rest)
read_u64 n rest h = read-write 8 n rest ∙ ap (λ (m : ℕ). some (m, rest)) (mod-eq_of_lt h)

pub read_blocks-write_blocks :
    (bs : List Block) (rest : List ℕ)
    → AreBlocks bs
    → read_blocks (length bs) (write_blocks bs ++ rest) ≡ some (bs, rest)
unfolding read_blocks write_blocks
read_blocks-write_blocks [] rest h = refl
read_blocks-write_blocks (b ∷ bs) rest h =
    rw
      (
        write_blocks,
        append_assoc (write 8 b.low) (write 8 b.high ++ write_blocks bs) rest,
        append_assoc (write 8 b.high) (write_blocks bs) rest,
        read_blocks,
        read_u64 b.low (write 8 b.high ++ (write_blocks bs ++ rest)) h.0.1,
        read_u64 b.high (write_blocks bs ++ rest) h.0.0,
        read_blocks-write_blocks bs rest h.1,
      )
      refl

read_vector_lem :
    (bs : List Block) (rest : List ℕ)
    → AreBlocks bs
    → length bs < 2 ^ 64
    → read_vector (save_vector_to_file bs ++ rest) ≡ some (bs, rest)
unfolding read_vector save_vector_to_file
read_vector_lem bs rest h l =
    rw
      (
        save_vector_to_file,
        append_assoc (write 8 (length bs)) (write_blocks bs) rest,
        read_vector,
        read_u64 (length bs) (write_blocks bs ++ rest) l,
      )
      (read_blocks-write_blocks bs rest h)

-- A vector of blocks of two 64-bit values, of a length of 64 bits, is what `loadVectorFromFile`
-- reads from the file that `saveVectorToFile` wrote, whatever follows it.
pub load_vector_from_file-save_vector_to_file :
    (bs : List Block) (rest : List ℕ)
    → AreBlocks bs
    → length bs < 2 ^ 64
    → load_vector_from_file (some (save_vector_to_file bs ++ rest)) ≡ some bs
unfolding load_vector_from_file
load_vector_from_file-save_vector_to_file bs rest h l =
    rw (load_vector_from_file, read_vector_lem bs rest h l) refl

read_rows-write_rows :
    (rows : List (List Block)) (rest : List ℕ)
    → AreRows rows
    → read_rows (length rows) (write_rows rows ++ rest) ≡ some (rows, rest)
unfolding read_rows write_rows
read_rows-write_rows [] rest h = refl
read_rows-write_rows (row ∷ rows) rest h =
    rw
      (
        write_rows,
        append_assoc (save_vector_to_file row) (write_rows rows) rest,
        read_rows,
        read_vector_lem row (write_rows rows ++ rest) h.0 h.1,
        read_rows-write_rows rows rest h.2,
      )
      refl

-- A table of at least one row, whose entries are blocks of two 64-bit values and whose number of
-- rows and lengths of rows have 64 bits, is written, and `loadVectorOfVectorsFromFile` reads it
-- back from the file that `saveVectorOfVectorsToFile` wrote, whatever follows it.
pub load_vector_of_vectors_from_file-save_vector_of_vectors_to_file :
    (row : List Block) (rows : List (List Block)) (rest : List ℕ)
    → AreRows (row ∷ rows)
    → length (row ∷ rows) < 2 ^ 64
    → Returns
        (save_vector_of_vectors_to_file (row ∷ rows))
        λ bytes. load_vector_of_vectors_from_file (some (bytes ++ rest)) ≡ some (row ∷ rows)
unfolding save_vector_of_vectors_to_file load_vector_of_vectors_from_file
load_vector_of_vectors_from_file-save_vector_of_vectors_to_file row rows rest h l = (
  _,
  refl,
  rw
      (
        append_assoc (write 8 (length (row ∷ rows))) (write_rows (row ∷ rows)) rest,
        load_vector_of_vectors_from_file,
        read_u64 (length (row ∷ rows)) (write_rows (row ∷ rows) ++ rest) l,
        read_rows-write_rows (row ∷ rows) rest h,
      )
      refl,
)
