-- ===== src/Tests/Files.antt =====
-- The table files of triangle_counting/triangle.h on concrete tables.
use sectric.Common.{◌≡◌, some, List, [], ◌∷◌, ◌++◌, arith}
use sectric.Common.Run.{Returns}
use sectric.Block.Sse.{Block, make_block}
use sectric.Graph.{save_vector_of_vectors_to_file, load_vector_of_vectors_from_file}
use sectric.Graph.RoundTrip.{load_vector_of_vectors_from_file-save_vector_of_vectors_to_file}

abbrev first_row : List Block
first_row = make_block 1 300 ∷ make_block 0 70000 ∷ []

load_vector_of_vectors_from_file_example :
    Returns
      (save_vector_of_vectors_to_file (first_row ∷ [] ∷ []))
      λ bytes. load_vector_of_vectors_from_file (some (bytes ++ [])) ≡ some (first_row ∷ [] ∷ [])
load_vector_of_vectors_from_file_example =
    load_vector_of_vectors_from_file-save_vector_of_vectors_to_file first_row ([] ∷ []) []
      ((omega arith, (omega arith, tt)), omega arith, (tt, omega arith, tt)) (omega arith)
