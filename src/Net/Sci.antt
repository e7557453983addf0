-- ===== src/Net/Sci.antt =====
-- `send_data`, `recv_data` and `flush` of debug_files/net_io_channel.h, whose loops are those of
-- debug_files/stream_channel.hpp; what was sent is flushed only before the next receive.
use sectric.Common.{
  ℕ, ◌+◌, ◌%◌, ◌^◌, ◌≤◌, ◌≡◌, refl, Bool, true, false, if◌then◌else◌, List, [], ◌++◌, length,
}
use sectric.Common.Run.{Run, ok, ◌>>=◌, Returns}
use sectric.Net.{NetIo, flush, send_loop, receive_loop}
use sectric.Net.Stream.{sum, send_loop_lem, receive_loop_lem}

pub record SciNetIo : Type 0 where
  pub stream : NetIo
  pub has_sent : Bool
  pub counter : ℕ

unfoldable pub send_data : List ℕ → List ℕ → SciNetIo → Run SciNetIo
send_data results bytes n = do
  m ← send_loop results bytes n.stream
  ok (record { stream = m; has_sent = true; counter = (n.counter + length bytes) % 2 ^ 64 })

unfoldable pub recv_data : List ℕ → ℕ → SciNetIo → Run (List ℕ × SciNetIo)
recv_data results len n = do
  r ← receive_loop results len [] (if n.has_sent then flush n.stream else n.stream)
  ok (r.0, record n { stream = r.1; has_sent = false })

-- After `send_data`, `recv_data` of bytes that arrive gives them and leaves the others; by then
-- all that was sent is flushed, in order, and the counter has grown by its length modulo 2 ^ 64,
-- if the calls of the stream move enough bytes.
pub recv_data-send_data :
    (writes reads bytes wanted rest : List ℕ) (n : SciNetIo)
    → length bytes ≤ sum writes
    → length wanted ≤ sum reads
    → n.stream.arriving ≡ wanted ++ rest
    → Returns (send_data writes bytes n) λ a. Returns (recv_data reads (length wanted) a) λ z.
      (z.0 ≡ wanted)
      × (z.1.stream.buffered ≡ [])
      × (z.1.stream.sent ≡ n.stream.sent ++ (n.stream.buffered ++ bytes))
      × (z.1.stream.arriving ≡ rest)
      × (z.1.counter ≡ (n.counter + length bytes) % 2 ^ 64)
unfolding send_data recv_data flush
recv_data-send_data writes reads bytes wanted rest n hw hr at =
    let m : NetIo = record n.stream { buffered = n.stream.buffered ++ bytes } in
    (
      record { stream = m; has_sent = true; counter = (n.counter + length bytes) % 2 ^ 64 },
      rw (send_loop_lem writes bytes n.stream hw) refl,
      (
        (
          wanted,
          record {
            stream = record (flush m) { arriving = rest };
            has_sent = false;
            counter = (n.counter + length bytes) % 2 ^ 64;
          },
        ),
        rw (receive_loop_lem reads (length wanted) [] wanted rest (flush m) refl hr at) refl,
        (refl, refl, refl, refl, refl),
      ),
    )
