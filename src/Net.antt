-- ===== src/Net.antt =====
-- The channel of debug_files/stream_channel.hpp over a buffered stream. What `fwrite` and `fread`
-- return, call by call, is a parameter: a list of results. A run in which these end before the
-- loop does has the fault `out_of_fuel`. Connecting, timing and printing are left out.
pub mod Stream
pub mod Vectors
pub mod Sync
pub mod Sci
pub mod Items
use sectric.Common.{
  ℕ, zero, suc, ◌+◌, ◌-◌, ◌*◌, ◌/◌, ◌%◌, ◌^◌, Option, none, some, List, [], ◌∷◌, ◌++◌, length, map,
  replicate,
}
use Prim.Native.Nat.{min}
use sectric.Common.Run.{Run, ok, fault, ◌>>=◌, out_of_range, out_of_fuel}
use sectric.Block.Sse.{Block}
use sectric.Graph.{write, read, write_blocks, read_blocks}

-- `buffered` was written to the stream and not flushed, `sent` was given to the connection and is
-- not yet with the other party, `arriving` came from there and was not read.
pub record NetIo : Type 0 where
  pub buffered : List ℕ
  pub sent : List ℕ
  pub arriving : List ℕ
  pub total_bytes_sent : ℕ
  pub total_bytes_received : ℕ

-- The first `k` entries, or all if there are fewer, and the others.
unfoldable pub split_at {ℓ} : {A : Type ℓ} → ℕ → List A → List A × List A
split_at zero xs = ([], xs)
split_at (suc k) [] = ([], [])
split_at (suc k) (x ∷ xs) = let rest = split_at k xs in (x ∷ rest.0, rest.1)

unfoldable pub flush : NetIo → NetIo
flush n = record n { sent = n.sent ++ n.buffered; buffered = [] }

-- The loop of `SendDataInternal` on the rest of the data. `SENT_LEN >= 0` always holds.
unfoldable pub send_loop : List ℕ → List ℕ → NetIo → Run NetIo
send_loop results [] n = ok n
send_loop [] (x ∷ rest) n = fault out_of_fuel
send_loop (k ∷ results) (x ∷ rest) n =
    let s = split_at k (x ∷ rest) in
    send_loop results s.1 (record n { buffered = n.buffered ++ s.0 })

unfoldable pub send_data_internal : List ℕ → List ℕ → NetIo → Run NetIo
send_data_internal results bytes n = do
  m ← send_loop results bytes n
  let f = flush m
  ok (record f { total_bytes_sent = (f.total_bytes_sent + length bytes) % 2 ^ 64 })

-- The loop of `ReceiveDataInternal` with `left` bytes to go. `fread` takes no more than these and
-- no more than what arrived; a result of 0 changes nothing.
unfoldable pub receive_loop : List ℕ → ℕ → List ℕ → NetIo → Run (List ℕ × NetIo)
receive_loop results zero received n = ok (received, n)
receive_loop [] (suc left) received n = fault out_of_fuel
receive_loop (k ∷ results) (suc left) received n =
    let s = split_at (min k (suc left)) n.arriving in
    receive_loop results (suc left - length s.0) (received ++ s.0) (record n { arriving = s.1 })

unfoldable pub receive_data_internal : List ℕ → ℕ → NetIo → Run (List ℕ × NetIo)
receive_data_internal results len n = do
  r ← receive_loop results len [] (flush n)
  ok (r.0, record r.1 { total_bytes_received = (r.1.total_bytes_received + len) % 2 ^ 64 })

-- `SendBytes`, `SendBits` and `SendString`, and their counterparts.
unfoldable pub send_bytes : List ℕ → List ℕ → NetIo → Run NetIo
send_bytes results bytes n = send_data_internal results bytes n

unfoldable pub receive_bytes : List ℕ → ℕ → NetIo → Run (List ℕ × NetIo)
receive_bytes results len n = receive_data_internal results len n

-- A value that the bytes do not give is not determined.
abbrev pub determined {ℓ} : {A : Type ℓ} → Option (A × List ℕ) → NetIo → Run (A × NetIo)
determined none n = fault out_of_range
determined (some r) n = ok (r.0, n)

-- `SendInteger` and `ReceiveInteger` of a type of `size` bytes.
unfoldable pub send_integer : List ℕ → ℕ → ℕ → NetIo → Run NetIo
send_integer results size number n = send_bytes results (write size number) n

unfoldable pub receive_integer : List ℕ → ℕ → NetIo → Run (ℕ × NetIo)
receive_integer results size n = do r ← receive_bytes results size n; determined (read size r.0) r.1

unfoldable pub send_blocks : List ℕ → List Block → NetIo → Run NetIo
send_blocks results blocks n = send_bytes results (write_blocks blocks) n

unfoldable pub receive_blocks : List ℕ → ℕ → NetIo → Run (List Block × NetIo)
receive_blocks results len n = do
  r ← receive_bytes results (len * 16) n
  determined (read_blocks len r.0) r.1

-- `memcpy(buffer + i * LEN, A[i].data(), LEN)`; beyond a row's end the memory holds `past`.
unfoldable pub copy_row : ℕ → ℕ → List ℕ → List ℕ
copy_row past zero row = []
copy_row past (suc len) [] = past ∷ copy_row past len []
copy_row past (suc len) (x ∷ row) = x ∷ copy_row past len row

unfoldable pub fill_buffer : ℕ → ℕ → List (List ℕ) → List ℕ
fill_buffer past len [] = []
fill_buffer past len (row ∷ rows) = copy_row past len row ++ fill_buffer past len rows

-- The loop that makes `num` rows of `len` bytes.
unfoldable pub cut_rows : ℕ → ℕ → List ℕ → List (List ℕ)
cut_rows zero len bytes = []
cut_rows (suc num) len bytes = let s = split_at len bytes in s.0 ∷ cut_rows num len s.1

-- `SendBytesVector` reads `A[0]`.
unfoldable pub send_bytes_vector : ℕ → List ℕ → List ℕ → List ℕ → List (List ℕ) → NetIo → Run NetIo
send_bytes_vector past first second third [] n = fault out_of_range
send_bytes_vector past first second third (row ∷ rows) n = do
  a ← send_integer first 8 (length (row ∷ rows)) n
  b ← send_integer second 8 (length row) a
  send_bytes third (fill_buffer past (length row) (row ∷ rows)) b

unfoldable pub receive_bytes_vector : List ℕ → List ℕ → List ℕ → NetIo → Run (List (List ℕ) × NetIo)
receive_bytes_vector first second third n = do
  (num, a) ← receive_integer first 8 n
  (len, b) ← receive_integer second 8 a
  (bytes, c) ← receive_bytes third (len * num % 2 ^ 64) b
  ok (cut_rows num len bytes, c)

unfoldable pub send_string_vector : ℕ → List ℕ → List ℕ → ℕ → List (List ℕ) → NetIo → Run NetIo
send_string_vector past first second len rows n = do
  a ← send_integer first 8 (length rows) n
  send_bytes second (fill_buffer past len rows) a

unfoldable pub receive_string_vector : List ℕ → List ℕ → ℕ → NetIo → Run (List (List ℕ) × NetIo)
receive_string_vector first second len n = do
  (num, a) ← receive_integer first 8 n
  (bytes, b) ← receive_bytes second (len * num % 2 ^ 64) a
  ok (cut_rows num len bytes, b)

-- `PrintStats`
unfoldable pub print_stats : NetIo → ℕ × ℕ
print_stats n = (n.total_bytes_sent, n.total_bytes_received)

-- The connection gives the other party what was sent.
abbrev pub connected : NetIo → NetIo → NetIo
connected from to = record to { arriving = to.arriving ++ from.sent }
