-- ===== src/Graph/Request.antt =====
-- The neighbours' messages and the request for them in triangle_counting/triangle.h. A connection
-- is the identifier and the bytes that a client sends on it; the random blocks and the key-value
-- store come from a library.
use sectric.Common.{
  not, ◌&&◌, Option, none, some, ℕ, zero, suc, ◌+◌, ◌-◌, ◌*◌, ◌%◌, ◌^◌, ◌==◌, if◌then◌else◌, ltb,
  leb, List, [], ◌∷◌, ◌++◌, length, map,
}
use sectric.Common.Run.{Run, ok, fault, ◌>>=◌, out_of_range, out_of_fuel, not_open, no_value}
use sectric.Block.Sse.{Block}
use sectric.Graph.{write_blocks, u64s_to_blocks, concatenate_vectors}
use sectric.Oprf.{byte_to_block}
use sectric.Net.{split_at}

-- `std::map`: a write replaces or adds, a read of a missing key gives an empty vector.
unfoldable pub insert : List (ℕ × List Block) → ℕ → List Block → List (ℕ × List Block)
insert [] k v = (k, v) ∷ []
insert (e ∷ m) k v = let rest = insert m k v in if e.0 == k then (k, v) ∷ m else e ∷ rest

unfoldable pub find : List (ℕ × List Block) → ℕ → List Block
find [] k = []
find (e ∷ m) k = let rest = find m k in if e.0 == k then e.1 else rest

-- The identifier is sent as 32 bits and becomes an `int`, and then a key of 64 bits.
unfoldable pub client_key : ℕ → ℕ
client_key sent = if ltb sent (2 ^ 31) then sent else 2 ^ 64 - 2 ^ 32 + sent

-- `serializeVector` into a buffer that has the vector's size, and `sendMessage`.
unfoldable pub serialize_vector : List Block → ℕ → List ℕ → List ℕ
serialize_vector blocks buffer_size buffer =
    if ltb buffer_size (16 * length blocks) then buffer else write_blocks blocks

unfoldable pub send_message : List ℕ → ℕ → List Block → ℕ × List ℕ
send_message stale client_id blocks =
    (client_id % 2 ^ 32, serialize_vector blocks (16 * length blocks) stale)

-- The loop of `startServer` over the connections. A number of bytes that is no multiple of 16 is
-- copied beyond the end of the vector; without a further connection the server waits.
unfoldable pub serve :
    ℕ → ℕ → List (ℕ × List ℕ) → List (ℕ × List Block) → Run (List (ℕ × List Block))
serve recv_num buffer_size [] client_data_map = fault out_of_fuel
serve recv_num buffer_size (c ∷ connections) client_data_map =
    let received = (split_at buffer_size c.1).0 in
    let updated = insert client_data_map (client_key c.0) (byte_to_block received) in
    let rest = serve recv_num buffer_size connections updated in
    if length received % 16 == 0
    then if leb recv_num (length updated) then ok updated else rest
    else fault out_of_range

unfoldable pub start_server : ℕ → ℕ → List (ℕ × List ℕ) → Run (List (ℕ × List Block))
start_server recv_num size connections = serve recv_num (16 * size + 4) connections []

-- `read_to_block`: one number a line; `stoull` is `std::stoull`, which can throw.
unfoldable pub numbers_of {ℓ} : {Line : Type ℓ} → (Line → Run ℕ) → List Line → Run (List ℕ)
numbers_of stoull [] = ok []
numbers_of stoull (line ∷ lines) = do
  number ← stoull line
  rest ← numbers_of stoull lines
  ok (number ∷ rest)

unfoldable pub read_to_block {ℓ} :
    {Line : Type ℓ} → (Line → Run ℕ) → Option (List Line) → Run (List Block)
read_to_block stoull none = fault not_open
read_to_block stoull (some lines) = do
  numbers ← numbers_of stoull lines
  ok (u64s_to_blocks numbers)

unfoldable pub flatten : List (List Block) → List Block
flatten [] = []
flatten (row ∷ rows) = row ++ flatten rows

module _ (prg : ℕ → ℕ → List Block) (draw : ℕ → List Block)
    (encode : List Block → List Block → List Block) (lookup : List Block → Block → Block)
    (max_degree : ℕ) where
  -- The keys of `neighbor`: the neighbours, and random blocks up to the largest degree.
  unfoldable pub padded_neighbors : List Block → List Block
  padded_neighbors neighbors =
      let num_add = (max_degree + 2 ^ 64 - length neighbors) % 2 ^ 64 in
      if ltb 0 num_add then concatenate_vectors neighbors (draw num_add) else neighbors

  -- The message of vertex `idx`; `prg idx` are the blocks from the seed of `idx`.
  unfoldable pub neighbor : List ℕ → ℕ → List Block → ℕ × List ℕ
  neighbor stale idx neighbors =
      send_message stale idx (encode (padded_neighbors neighbors) (prg idx max_degree))

  -- One row of `neighbor_of_neighbor`: the decoded values, and behind them random blocks. With more
  -- neighbours than the random blocks' number the values are written beyond the end of the row.
  unfoldable pub decoded_row : List Block → List Block → Run (List Block)
  decoded_row neighbors okvs =
      if ltb max_degree (length neighbors)
      then fault out_of_range
      else ok (map (lookup okvs) neighbors ++ (split_at (length neighbors) (draw max_degree)).1)

  -- The loop over the rows; `okvs_of` is the store of a neighbour.
  unfoldable pub decoded_rows :
      List Block → (Block → List Block) → List Block → Run (List (List Block))
  decoded_rows neighbors okvs_of [] = ok []
  decoded_rows neighbors okvs_of (a ∷ rest) = do
    row ← decoded_row neighbors (okvs_of a)
    rows ← decoded_rows neighbors okvs_of rest
    ok (row ∷ rows)

  unfoldable pub neighbor_request : ℕ → List Block → List (ℕ × List ℕ) → Run (List Block)
  neighbor_request size neighbors connections = do
    client_data ← start_server (length neighbors) size connections
    rows ← decoded_rows neighbors (λ (a : Block). find client_data a.low) neighbors
    ok (flatten rows)

  -- The blocks of all vertices, which the other party of `test_request` makes.
  unfoldable pub all_blocks : ℕ → List Block
  all_blocks zero = []
  all_blocks (suc n) = all_blocks n ++ prg n max_degree

  -- `test_request`: the vector that it returns, and the messages that it sends. `no_index` is the
  -- largest number of 64 bits.
  abbrev pub no_index : ℕ
  no_index = 2 ^ 64 - 1

  unfoldable pub test_request {ℓ} :
      {Line : Type ℓ}
      → (Line → Run ℕ)
      → (ℕ → Option (List Line))
      → ℕ
      → ℕ
      → List ℕ
      → List (ℕ × List ℕ)
      → ℕ
      → ℕ
      → ℕ
      → List Block
      → Run (List Block × List (ℕ × List ℕ))
  test_request stoull files num_vertex size stale connections role target idx neighbors =
      if not (target == no_index) && role == 1
      then (neighbor_request size neighbors connections >>= (λ result. ok (result, [])))
      else if not (idx == no_index)
      then (read_to_block stoull (files idx) >>= (λ own. ok ([], neighbor stale idx own ∷ [])))
      else if not (target == no_index)
      then ok (all_blocks num_vertex, [])
      else fault no_value
