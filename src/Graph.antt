-- ===== src/Graph.antt =====
-- The table files of triangle_counting/triangle.h. A file is the list of its bytes, none if it
-- cannot be opened; numbers are stored with the lowest byte first.
pub mod RoundTrip
pub mod Request
pub mod Served
pub mod Edges
use sectric.Common.{
  ℕ, zero, suc, ◌+◌, ◌*◌, ◌/◌, ◌%◌, Option, none, some, List, [], ◌∷◌, ◌++◌, length, map,
}
use sectric.Common.Run.{Run, ok, fault, out_of_range}
use sectric.Block.Sse.{Block, make_block}

-- `outfile.write` of a number of `k` bytes.
unfoldable pub write : ℕ → ℕ → List ℕ
write zero n = []
write (suc k) n = n % 256 ∷ write k (n / 256)

-- `infile.read` of a number of `k` bytes, and the rest of the stream. If the stream ends first, the
-- number is not determined.
unfoldable pub read : ℕ → List ℕ → Option (ℕ × List ℕ)
read zero bytes = some (0, bytes)
read (suc k) [] = none
read (suc k) (b ∷ bytes) = elim (read k bytes) [ none ↦ none | some r ↦ some (b + 256 * r.0, r.1) ]

unfoldable pub write_blocks : List Block → List ℕ
write_blocks [] = []
write_blocks (b ∷ bs) = write 8 b.low ++ (write 8 b.high ++ write_blocks bs)

unfoldable pub read_blocks : ℕ → List ℕ → Option (List Block × List ℕ)
read_blocks zero bytes = some ([], bytes)
read_blocks (suc n) bytes = elim (read 8 bytes) [
  | none ↦ none
  | some low ↦ elim (read 8 low.1) [
    | none ↦ none
    | some high ↦ elim (read_blocks n high.1) [
      | none ↦ none
      | some r ↦ some (make_block high.0 low.0 ∷ r.0, r.1)
    ]
  ]
]

-- `saveVectorToFile`
unfoldable pub save_vector_to_file : List Block → List ℕ
save_vector_to_file blocks = write 8 (length blocks) ++ write_blocks blocks

unfoldable pub read_vector : List ℕ → Option (List Block × List ℕ)
read_vector bytes = elim (read 8 bytes) [ none ↦ none | some size ↦ read_blocks size.0 size.1 ]

-- `loadVectorFromFile`
unfoldable pub load_vector_from_file : Option (List ℕ) → Option (List Block)
load_vector_from_file none = some []
load_vector_from_file (some bytes) = elim (read_vector bytes) [ none ↦ none | some r ↦ some r.0 ]

unfoldable pub write_rows : List (List Block) → List ℕ
write_rows [] = []
write_rows (row ∷ rows) = save_vector_to_file row ++ write_rows rows

unfoldable pub read_rows : ℕ → List ℕ → Option (List (List Block) × List ℕ)
read_rows zero bytes = some ([], bytes)
read_rows (suc n) bytes = elim (read_vector bytes) [
  | none ↦ none
  | some row ↦ elim (read_rows n row.1) [ none ↦ none | some r ↦ some (row.0 ∷ r.0, r.1) ]
]

-- `saveVectorOfVectorsToFile` prints `data[0].size()` first.
unfoldable pub save_vector_of_vectors_to_file : List (List Block) → Run (List ℕ)
save_vector_of_vectors_to_file [] = fault out_of_range
save_vector_of_vectors_to_file (row ∷ rows) =
    ok (write 8 (length (row ∷ rows)) ++ write_rows (row ∷ rows))

-- `loadVectorOfVectorsFromFile`
unfoldable pub load_vector_of_vectors_from_file : Option (List ℕ) → Option (List (List Block))
load_vector_of_vectors_from_file none = some []
load_vector_of_vectors_from_file (some bytes) = elim (read 8 bytes) [
  | none ↦ none
  | some size ↦ elim (read_rows size.0 size.1) [ none ↦ none | some r ↦ some r.0 ]
]

-- `u64s_to_blocks`
unfoldable pub u64s_to_blocks : List ℕ → List Block
u64s_to_blocks numbers = map (λ n. make_block 0 n) numbers

-- `concatenate_vectors`: what `vec1` then holds.
unfoldable pub concatenate_vectors : List Block → List Block → List Block
concatenate_vectors vec1 vec2 = vec1 ++ vec2
