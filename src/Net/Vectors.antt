-- ===== src/Net/Vectors.antt =====
-- Values over the channel of debug_files/stream_channel.hpp: what arrives is what was sent.
use sectric.Common.{
  ℕ, zero, suc, ◌*◌, ◌%◌, ◌^◌, ◌<◌, ◌≤◌, ◌≡◌, refl, sym, ap, ap₂, ◌∙◌, some, List, [], ◌∷◌, ◌++◌,
  length, length-append, arith,
}
use mathlib.Core.List.{append_assoc, append-nil}
use native.Mathlib.Nat.{mod-eq_of_lt}
use sectric.Common.Run.{Returns}
use sectric.Block.Sse.{Block}
use sectric.Graph.{write, read, write_blocks, read_blocks}
use sectric.Graph.RoundTrip.{AreBlocks, read_blocks-write_blocks, read_u64}
use sectric.Oprf.Bytes.{length-write, length-write_blocks}
use sectric.Net.{
  NetIo, send_bytes, receive_bytes, send_integer, receive_integer, send_blocks, receive_blocks,
  copy_row, fill_buffer, cut_rows, send_bytes_vector, receive_bytes_vector, connected,
  receive_data_internal,
}
use sectric.Net.Stream.{sum, split_at-append, send_data_internal_lem, receive_data_internal_lem}

-- Rows of one length.
abbrev pub AreRows : ℕ → List (List ℕ) → Type 0
AreRows len [] = Unit
AreRows len (row ∷ rows) = (length row ≡ len) × AreRows len rows

copy_row_whole : (past len : ℕ) (row : List ℕ) → length row ≡ len → copy_row past len row ≡ row
unfolding copy_row
copy_row_whole past zero [] h = refl
copy_row_whole past zero (x ∷ row) h = absurd (omega (arith, h))
copy_row_whole past (suc len) [] h = absurd (omega (arith, h))
copy_row_whole past (suc len) (x ∷ row) h =
    ap (λ (xs : List ℕ). x ∷ xs) (copy_row_whole past len row (omega (arith, h)))

pub length-fill_buffer :
    (past len : ℕ) (rows : List (List ℕ))
    → AreRows len rows
    → length (fill_buffer past len rows) ≡ len * length rows
unfolding fill_buffer
length-fill_buffer past len [] h = omega arith
length-fill_buffer past len (row ∷ rows) h = rw (copy_row_whole past len row h.0) (
    omega (
      arith,
      length-append row (fill_buffer past len rows),
      length-fill_buffer past len rows h.1,
      h.0,
    ))

pub cut_rows-fill_buffer :
    (past len : ℕ) (rows : List (List ℕ))
    → AreRows len rows
    → cut_rows (length rows) len (fill_buffer past len rows) ≡ rows
unfolding cut_rows fill_buffer
cut_rows-fill_buffer past len [] h = refl
cut_rows-fill_buffer past len (row ∷ rows) h =
    rw (copy_row_whole past len row h.0, split_at-append len row (fill_buffer past len rows) h.0)
      (ap (λ (rs : List (List ℕ)). row ∷ rs) (cut_rows-fill_buffer past len rows h.1))

-- Everything that a party has sent or will send with the next flush.
abbrev pub outgoing : NetIo → List ℕ
outgoing n = n.sent ++ n.buffered

pub sends :
    (results bytes : List ℕ) (n : NetIo)
    → length bytes ≤ sum results
    → Returns
        (send_bytes results bytes n)
        λ m. (outgoing m ≡ outgoing n ++ bytes) × (m.buffered ≡ [])
unfolding send_bytes
sends results bytes n h = (
  _,
  send_data_internal_lem results bytes n h,
  (append-nil (n.sent ++ (n.buffered ++ bytes)) ∙ sym (append_assoc n.sent n.buffered bytes), refl),
)

sends_integer :
    (results : List ℕ) (number : ℕ) (n : NetIo)
    → 8 ≤ sum results
    → Returns
        (send_integer results 8 number n)
        λ m. (outgoing m ≡ outgoing n ++ write 8 number) × (m.buffered ≡ [])
unfolding send_integer
sends_integer results number n h =
    sends results (write 8 number) n (omega (arith, h, length-write 8 number))

pub receives :
    (results bytes rest : List ℕ) (len : ℕ) (n : NetIo)
    → len ≡ length bytes
    → len ≤ sum results
    → n.arriving ≡ bytes ++ rest
    → Returns (receive_bytes results len n) λ r. (r.0 ≡ bytes) × (r.1.arriving ≡ rest)
unfolding receive_bytes
receives results bytes rest len n w h at = (
  _,
  ap (λ (k : ℕ). receive_data_internal results k n) w
      ∙ receive_data_internal_lem results bytes rest n (omega (arith, w, h)) at,
  (refl, refl),
)

receives_integer :
    (results rest : List ℕ) (number : ℕ) (n : NetIo)
    → 8 ≤ sum results
    → number < 2 ^ 64
    → n.arriving ≡ write 8 number ++ rest
    → Returns (receive_integer results 8 n) λ r. (r.0 ≡ number) × (r.1.arriving ≡ rest)
unfolding receive_integer
receives_integer results rest number n h small at =
    let (r, run, (bytes, after)) =
      receives results (write 8 number) rest 8 n (sym (length-write 8 number)) h at in
    let back : read 8 r.0 ≡ some (number, []) =
      ap (read 8) (bytes ∙ sym (append-nil (write 8 number))) ∙ read_u64 number [] small in
    ((number, r.1), rw run (rw back refl), (refl, after))

pub sent_outgoing : (n : NetIo) → n.buffered ≡ [] → n.sent ≡ outgoing n
sent_outgoing n h = sym (append-nil n.sent) ∙ ap (λ (xs : List ℕ). n.sent ++ xs) (sym h)

-- Three sends, one after the other.
three_parts :
    (n a b c : NetIo) (x y z : List ℕ)
    → outgoing n ≡ []
    → outgoing a ≡ outgoing n ++ x
    → outgoing b ≡ outgoing a ++ y
    → outgoing c ≡ outgoing b ++ z
    → outgoing c ≡ x ++ (y ++ (z ++ []))
three_parts n a b c x y z h ha hb hc =
    let first : outgoing a ≡ x = ha ∙ ap (λ (xs : List ℕ). xs ++ x) h in
    let second : outgoing b ≡ x ++ y = hb ∙ ap (λ (xs : List ℕ). xs ++ y) first in
    hc
    ∙ ap (λ (xs : List ℕ). xs ++ z) second
    ∙ append_assoc x y z
    ∙ ap (λ (xs : List ℕ). x ++ (y ++ xs)) (sym (append-nil z))

-- The receiver, when the three parts of a vector arrived.
receives_vector :
    (past : ℕ) (r₁ r₂ r₃ : List ℕ) (len : ℕ) (rows : List (List ℕ)) (m : NetIo)
    → AreRows len rows
    → length rows < 2 ^ 64
    → len < 2 ^ 64
    → len * length rows < 2 ^ 64
    → (8 ≤ sum r₁) × (8 ≤ sum r₂) × (len * length rows ≤ sum r₃)
    → m.arriving ≡ write 8 (length rows) ++ (write 8 len ++ (fill_buffer past len rows ++ []))
    → Returns (receive_bytes_vector r₁ r₂ r₃ m) λ r. r.0 ≡ rows
unfolding receive_bytes_vector
receives_vector past r₁ r₂ r₃ len rows m even few wide small reads came =
    let buffer = fill_buffer past len rows in
    let w = length-fill_buffer past len rows even in
    let (x, run_x, (num, after_x)) =
      receives_integer r₁ (write 8 len ++ (buffer ++ [])) (length rows) m reads.0 few came in
    let (y, run_y, (width, after_y)) =
      receives_integer r₂ (buffer ++ []) len x.1 reads.1 wide after_x in
    let count : y.0 * x.0 % 2 ^ 64 ≡ length buffer =
      ap₂ (λ (p q : ℕ). p * q % 2 ^ 64) width num ∙ mod-eq_of_lt small ∙ sym w in
    let (z, run_z, (bytes, after_z)) =
      receives r₃ buffer [] (y.0 * x.0 % 2 ^ 64) y.1 count (omega (arith, count, w, reads.2))
        after_y in
    (
      (cut_rows x.0 y.0 z.0, z.1),
      rw (run_x, run_y, run_z) refl,
      ap (λ (k : ℕ). cut_rows k y.0 z.0) num
          ∙ ap (λ (k : ℕ). cut_rows (length rows) k z.0) width
          ∙ ap (cut_rows (length rows) len) bytes
          ∙ cut_rows-fill_buffer past len rows even,
    )

-- A vector of at least one row, all of one length, whose sizes and their product have 64 bits, is
-- what `ReceiveBytesVector` gives after `SendBytesVector` wrote it to an empty channel, in
-- whatever pieces the stream takes and gives the bytes, if the pieces are enough.
pub receive_bytes_vector-send_bytes_vector :
    (past : ℕ) (s₁ s₂ s₃ r₁ r₂ r₃ : List ℕ) (row : List ℕ) (rows : List (List ℕ)) (n m : NetIo)
    → AreRows (length row) rows
    → length (row ∷ rows) < 2 ^ 64
    → length row < 2 ^ 64
    → length row * length (row ∷ rows) < 2 ^ 64
    → (8 ≤ sum s₁) × (8 ≤ sum s₂) × (length row * length (row ∷ rows) ≤ sum s₃)
    → (8 ≤ sum r₁) × (8 ≤ sum r₂) × (length row * length (row ∷ rows) ≤ sum r₃)
    → outgoing n ≡ []
    → m.arriving ≡ []
    → Returns
        (send_bytes_vector past s₁ s₂ s₃ (row ∷ rows) n)
        λ n'. Returns (receive_bytes_vector r₁ r₂ r₃ (connected n' m)) λ r. r.0 ≡ row ∷ rows
unfolding send_bytes_vector
receive_bytes_vector-send_bytes_vector past s₁ s₂ s₃ r₁ r₂ r₃ row rows n m even few wide small
      writes reads clean empty =
    let all = row ∷ rows in
    let len = length row in
    let buffer = fill_buffer past len all in
    let w : length buffer ≡ len * length all = length-fill_buffer past len all (refl, even) in
    let (a, run_a, (out_a, flat_a)) = sends_integer s₁ (length all) n writes.0 in
    let (b, run_b, (out_b, flat_b)) = sends_integer s₂ len a writes.1 in
    let (n', run_n, (out_n, flat_n)) = sends s₃ buffer b (omega (arith, w, writes.2)) in
    let came : m.arriving ++ n'.sent ≡ write 8 (length all) ++ (write 8 len ++ (buffer ++ [])) =
      ap (λ (xs : List ℕ). xs ++ n'.sent) empty
      ∙ sent_outgoing n' flat_n
      ∙ three_parts n a b n' (write 8 (length all)) (write 8 len) buffer clean out_a out_b out_n in
    (
      n',
      rw (run_a, run_b) run_n,
      receives_vector past r₁ r₂ r₃ len all (connected n' m) (refl, even) few wide small reads came,
    )

-- Blocks of two 64-bit values that `SendBlocks` wrote to an empty channel are what
-- `ReceiveBlocks` gives, if the calls of the stream move enough bytes.
pub receive_blocks-send_blocks :
    (s r : List ℕ) (blocks : List Block) (n m : NetIo)
    → AreBlocks blocks
    → 16 * length blocks ≤ sum s
    → 16 * length blocks ≤ sum r
    → outgoing n ≡ []
    → m.arriving ≡ []
    → Returns
        (send_blocks s blocks n)
        λ n'. Returns (receive_blocks r (length blocks) (connected n' m)) λ z. z.0 ≡ blocks
unfolding send_blocks receive_blocks
receive_blocks-send_blocks s r blocks n m h writes reads clean empty =
    let bytes = write_blocks blocks in
    let w = length-write_blocks blocks in
    let (n', run_n, (out, flat)) = sends s bytes n (omega (arith, w, writes)) in
    let came : m.arriving ++ n'.sent ≡ bytes ++ [] =
      ap (λ (xs : List ℕ). xs ++ n'.sent) empty
      ∙ sent_outgoing n' flat
      ∙ out
      ∙ ap (λ (xs : List ℕ). xs ++ bytes) clean
      ∙ sym (append-nil bytes) in
    let (z, run_z, (got, after)) =
      receives r bytes [] (length blocks * 16) (connected n' m) (omega (arith, w))
        (omega (arith, reads)) came in
    let back : read_blocks (length blocks) z.0 ≡ some (blocks, []) =
      ap (read_blocks (length blocks)) (got ∙ sym (append-nil bytes))
      ∙ read_blocks-write_blocks blocks [] h in
    (n', run_n, ((blocks, z.1), rw run_z (rw back refl), refl))
