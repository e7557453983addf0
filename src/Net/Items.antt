-- ===== src/Net/Items.antt =====
-- Points and numbers over the channel of debug_files/stream_channel.hpp. Their encodings come from
-- libraries: `to_oct` and `of_oct` for the points of a curve, `binpad` and `bin2bn` for numbers,
-- which have a sign.
use sectric.Common.{
  ℕ, ◌+◌, ◌^◌, ◌<◌, ltb, true, false, if◌then◌else◌, ◌*◌, ◌≤◌, ◌≡◌, refl, sym, ap, ◌∙◌, Option,
  none, some, List, [], ◌++◌, length, map, replicate, length-replicate, arith,
}
use mathlib.Core.List.{append-nil}
use sectric.Common.Run.{Run, ok, ◌>>=◌, Returns}
use sectric.Net.{NetIo, send_bytes, receive_bytes, fill_buffer, cut_rows, connected}
use sectric.Net.Stream.{sum}
use sectric.Net.Vectors.{outgoing, sends, receives, sent_outgoing}

-- `SendEC25519Points` copies the 32 bytes of each point.
unfoldable pub send_ec25519_points : List ℕ → List (List ℕ) → NetIo → Run NetIo
send_ec25519_points results points n = send_bytes results (fill_buffer 0 32 points) n

unfoldable pub receive_ec25519_points : List ℕ → ℕ → NetIo → Run (List (List ℕ) × NetIo)
receive_ec25519_points results len n = do
  r ← receive_bytes results (32 * len) n
  ok (cut_rows len 32 r.0, r.1)

-- The points of a curve, `width` bytes each; what `EC_POINT_point2oct` does not write is `past`.
module _ {Point : Type 0} (to_oct : Point → List ℕ) (of_oct : List ℕ → Point) (width past : ℕ) where
  unfoldable pub send_ec_points : List ℕ → List Point → NetIo → Run NetIo
  send_ec_points results points n =
      send_bytes results (fill_buffer past width (map to_oct points)) n

  unfoldable pub receive_ec_points : List ℕ → ℕ → NetIo → Run (List Point × NetIo)
  receive_ec_points results len n = do
    r ← receive_bytes results (len * width) n
    ok (map of_oct (cut_rows len width r.0), r.1)

-- A `BigInt`; `negsuc n` is -(n + 1).
pub data ℤ : Type 0 where
  pos : ℕ → ℤ
  negsuc : ℕ → ℤ

abbrev pub abs : ℤ → ℕ
abs (pos n) = n
abs (negsuc n) = n + 1

-- `SendBigInt` clears the buffer, which stays so if the number does not fit.
abbrev pub padded_bytes : ℕ → Option (List ℕ) → List ℕ
padded_bytes len none = replicate len 0
padded_bytes len (some bytes) = bytes

module _ (binpad : ℤ → ℕ → Option (List ℕ)) (bin2bn : List ℕ → ℤ) where
  unfoldable pub big_int_buffer : ℤ → ℕ → List ℕ
  big_int_buffer a len = padded_bytes len (binpad a len)

  unfoldable pub send_big_int : List ℕ → ℤ → ℕ → NetIo → Run NetIo
  send_big_int results a len n = send_bytes results (big_int_buffer a len) n

  unfoldable pub receive_big_int : List ℕ → ℕ → NetIo → Run (ℤ × NetIo)
  receive_big_int results len n = do r ← receive_bytes results len n; ok (bin2bn r.0, r.1)

-- One message from a party that has nothing else to send to one that has nothing else to read.
single :
    (writes reads bytes : List ℕ) (n m : NetIo)
    → length bytes ≤ sum writes
    → length bytes ≤ sum reads
    → outgoing n ≡ []
    → m.arriving ≡ []
    → Returns
        (send_bytes writes bytes n)
        λ n'. Returns (receive_bytes reads (length bytes) (connected n' m)) λ r. r.0 ≡ bytes
single writes reads bytes n m hw hr clean empty =
    let (n', run_n, (out, flat)) = sends writes bytes n hw in
    let came : m.arriving ++ n'.sent ≡ bytes ++ [] =
      ap (λ (xs : List ℕ). xs ++ n'.sent) empty
      ∙ sent_outgoing n' flat
      ∙ out
      ∙ ap (λ (xs : List ℕ). xs ++ bytes) clean
      ∙ sym (append-nil bytes) in
    let (r, run_r, (got, after)) =
      receives reads bytes [] (length bytes) (connected n' m) refl hr came in
    (n', run_n, (r, run_r, got))

-- What the library promises: `BN_bn2binpad` writes the absolute value in `len` bytes if it has no
-- more, and `BN_bin2bn` reads a positive number.
pub record IsBinary (binpad : ℤ → ℕ → Option (List ℕ)) (bin2bn : List ℕ → ℤ) : Type 0 where
  pub refused : (a : ℤ) (len : ℕ) → binpad a len ≡ none → 256 ^ len ≤ abs a
  pub fitting : (a : ℤ) (len : ℕ) (bytes : List ℕ) → binpad a len ≡ some bytes → abs a < 256 ^ len
  pub width_of : (a : ℤ) (len : ℕ) (bytes : List ℕ) → binpad a len ≡ some bytes → length bytes ≡ len
  pub read_back :
      (a : ℤ) (len : ℕ) (bytes : List ℕ) → binpad a len ≡ some bytes → bin2bn bytes ≡ pos (abs a)
  pub zeros_read : (len : ℕ) → bin2bn (replicate len 0) ≡ pos 0

-- The number that arrives in `len` bytes.
abbrev pub arrives : ℤ → ℕ → ℤ
arrives a len = pos (if ltb (abs a) (256 ^ len) then abs a else 0)

module _ (binpad : ℤ → ℕ → Option (List ℕ)) (bin2bn : List ℕ → ℤ)
    (binary : IsBinary binpad bin2bn) where
  padded_bytes_lem :
      (a : ℤ) (len : ℕ) (o : Option (List ℕ))
      → binpad a len ≡ o
      → (length (padded_bytes len o) ≡ len) × (bin2bn (padded_bytes len o) ≡ arrives a len)
  padded_bytes_lem a len none e =
      let large : ltb (abs a) (256 ^ len) ≡ false = ground (arith, binary.refused a len e) in
      (length-replicate len 0, binary.zeros_read len ∙ sym (rw large refl))
  padded_bytes_lem a len (some bytes) e =
      let fits : ltb (abs a) (256 ^ len) ≡ true = ground (arith, binary.fitting a len bytes e) in
      (binary.width_of a len bytes e, binary.read_back a len bytes e ∙ sym (rw fits refl))

  -- With a library that writes the absolute value of a number if its bytes fit and reads a
  -- positive number back, the number that `ReceiveBigInt` gives after `SendBigInt` over an empty
  -- channel is the absolute value of the one that was sent if that fits into the given length, and
  -- 0 if it does not; a negative number loses its sign.
  pub receive_big_int-send_big_int :
      (writes reads : List ℕ) (a : ℤ) (len : ℕ) (n m : NetIo)
      → len ≤ sum writes
      → len ≤ sum reads
      → outgoing n ≡ []
      → m.arriving ≡ []
      → Returns (send_big_int binpad bin2bn writes a len n) λ n'.
        Returns (receive_big_int binpad bin2bn reads len (connected n' m)) λ r. r.0 ≡ arrives a len
  unfolding big_int_buffer send_big_int receive_big_int
  receive_big_int-send_big_int writes reads a len n m hw hr clean empty =
      let (w, arrived) = padded_bytes_lem a len (binpad a len) refl in
      let buffer = padded_bytes len (binpad a len) in
      let (n', run_n, (r, run_r, got)) =
        single writes reads buffer n m (omega (arith, w, hw)) (omega (arith, w, hr)) clean empty in
      let run : receive_bytes reads len (connected n' m) ≡ ok r =
        ap (λ (k : ℕ). receive_bytes reads k (connected n' m)) (sym w) ∙ run_r in
      (n', run_n, ((bin2bn r.0, r.1), rw run refl, ap bin2bn got ∙ arrived))
