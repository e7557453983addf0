-- ===== src/Net/Stream.antt =====
-- Bytes over the channel of debug_files/stream_channel.hpp, in whatever pieces the stream takes and
-- gives them.
use sectric.Common.{
  ℕ, zero, suc, ◌+◌, ◌-◌, ◌%◌, ◌^◌, ◌<◌, ◌≤◌, ◌≡◌, refl, sym, ap, ap₂, ◌∙◌, List, [], ◌∷◌, ◌++◌,
  length, length-append, arith,
}
use Prim.Native.Nat.{min}
use mathlib.Core.List.{append_assoc, append-nil}
use sectric.Common.Run.{ok, fault, out_of_fuel, Returns}
use sectric.Net.{
  NetIo, split_at, flush, send_loop, send_data_internal, receive_loop, receive_data_internal,
  send_bytes, receive_bytes, connected,
}

-- How many bytes these results account for.
abbrev pub sum : List ℕ → ℕ
sum [] = 0
sum (k ∷ results) = k + sum results

split_at-whole : (k : ℕ) (xs : List ℕ) → (split_at k xs).0 ++ (split_at k xs).1 ≡ xs
unfolding split_at
split_at-whole zero xs = refl
split_at-whole (suc k) [] = refl
split_at-whole (suc k) (x ∷ xs) = ap (λ (ys : List ℕ). x ∷ ys) (split_at-whole k xs)

length-split_at : (k : ℕ) (xs : List ℕ) → length (split_at k xs).1 ≡ length xs - k
unfolding split_at
length-split_at zero xs = omega arith
length-split_at (suc k) [] = omega arith
length-split_at (suc k) (x ∷ xs) = omega (arith, length-split_at k xs)

pub split_at-append : (k : ℕ) (xs ys : List ℕ) → length xs ≡ k → split_at k (xs ++ ys) ≡ (xs, ys)
unfolding split_at
split_at-append zero [] ys h = refl
split_at-append zero (x ∷ xs) ys h = absurd (omega (arith, h))
split_at-append (suc k) [] ys h = absurd (omega (arith, h))
split_at-append (suc k) (x ∷ xs) ys h =
    ap (λ (z : List ℕ × List ℕ). (x ∷ z.0, z.1)) (split_at-append k xs ys (omega (arith, h)))

-- A split of the first part leaves the second where it was.
split_at-within :
    (k : ℕ) (xs ys : List ℕ)
    → k ≤ length xs
    → split_at k (xs ++ ys) ≡ ((split_at k xs).0, (split_at k xs).1 ++ ys)
unfolding split_at
split_at-within zero xs ys h = refl
split_at-within (suc k) [] ys h = absurd (omega (arith, h))
split_at-within (suc k) (x ∷ xs) ys h =
    ap (λ (z : List ℕ × List ℕ). (x ∷ z.0, z.1)) (split_at-within k xs ys (omega (arith, h)))

pub send_loop_lem :
    (results rest : List ℕ) (n : NetIo)
    → length rest ≤ sum results
    → send_loop results rest n ≡ ok (record n { buffered = n.buffered ++ rest })
unfolding send_loop
send_loop_lem results [] n h =
    ap (λ (b : List ℕ). ok (record n { buffered = b })) (sym (append-nil n.buffered))
send_loop_lem [] (x ∷ rest) n h = absurd (omega (arith, h))
send_loop_lem (k ∷ results) (x ∷ rest) n h =
    let s = split_at k (x ∷ rest) in
    send_loop_lem results s.1 (record n { buffered = n.buffered ++ s.0 })
      (omega (arith, h, length-split_at k (x ∷ rest)))
    ∙ ap (λ (b : List ℕ). ok (record n { buffered = b }))
        (append_assoc n.buffered s.0 s.1
          ∙ ap (λ (ys : List ℕ). n.buffered ++ ys) (split_at-whole k (x ∷ rest)))

pub send_data_internal_lem :
    (results bytes : List ℕ) (n : NetIo)
    → length bytes ≤ sum results
    → send_data_internal results bytes n
      ≡ ok (record n {
        buffered = [];
        sent = n.sent ++ (n.buffered ++ bytes);
        total_bytes_sent = (n.total_bytes_sent + length bytes) % 2 ^ 64;
      })
unfolding send_data_internal flush
send_data_internal_lem results bytes n h = rw (send_loop_lem results bytes n h) refl

split_lengths :
    (k : ℕ) (xs : List ℕ) → length (split_at k xs).0 + length (split_at k xs).1 ≡ length xs
split_lengths k xs =
    sym (length-append (split_at k xs).0 (split_at k xs).1) ∙ ap length (split_at-whole k xs)

pub receive_loop_lem :
    (results : List ℕ) (left : ℕ) (received wanted rest : List ℕ) (n : NetIo)
    → length wanted ≡ left
    → left ≤ sum results
    → n.arriving ≡ wanted ++ rest
    → receive_loop results left received n ≡ ok (received ++ wanted, record n { arriving = rest })
unfolding receive_loop
receive_loop_lem results zero received [] rest n w h at =
    ap₂ (λ (xs ys : List ℕ). ok (xs, record n { arriving = ys })) (sym (append-nil received)) at
receive_loop_lem results zero received (x ∷ wanted) rest n w h at = absurd (omega (arith, w))
receive_loop_lem [] (suc left) received wanted rest n w h at = absurd (omega (arith, h))
receive_loop_lem (k ∷ results) (suc left) received wanted rest n w h at =
    let m = min k (suc left) in
    let s = split_at m wanted in
    let split : split_at m n.arriving ≡ (s.0, s.1 ++ rest) =
      ap (split_at m) at ∙ split_at-within m wanted rest (omega (arith, w)) in
    let after = length-split_at m wanted in
    let both = split_lengths m wanted in
    let count : length s.1 ≡ suc left - length s.0 = omega (arith, both, w) in
    rw (receive_loop, split)
      (receive_loop_lem results (suc left - length s.0) (received ++ s.0) s.1 rest
          (record n { arriving = s.1 ++ rest }) count (omega (arith, after, both, w, h)) refl
        ∙ ap (λ (xs : List ℕ). ok (xs, record n { arriving = rest }))
            (append_assoc received s.0 s.1
              ∙ ap (λ (ys : List ℕ). received ++ ys) (split_at-whole m wanted)))

pub receive_data_internal_lem :
    (results bytes rest : List ℕ) (n : NetIo)
    → length bytes ≤ sum results
    → n.arriving ≡ bytes ++ rest
    → receive_data_internal results (length bytes) n
      ≡ ok (
        bytes,
        record n {
          buffered = [];
          sent = n.sent ++ n.buffered;
          arriving = rest;
          total_bytes_received = (n.total_bytes_received + length bytes) % 2 ^ 64;
        },
      )
unfolding receive_data_internal flush
receive_data_internal_lem results bytes rest n h at =
    rw (receive_loop_lem results (length bytes) [] bytes rest (flush n) refl h at) refl

receive_loop_short :
    (results : List ℕ) (left : ℕ) (received : List ℕ) (n : NetIo)
    → length n.arriving < left
    → receive_loop results left received n ≡ fault out_of_fuel
unfolding receive_loop
receive_loop_short results zero received n h = elim h [ ]
receive_loop_short [] (suc left) received n h = refl
receive_loop_short (k ∷ results) (suc left) received n h =
    let s = split_at (min k (suc left)) n.arriving in
    receive_loop_short results (suc left - length s.0) (received ++ s.0)
      (record n { arriving = s.1 }) (omega (arith, h, split_lengths (min k (suc left)) n.arriving))

-- If fewer bytes arrive than are asked for, no number of calls of `fread` is enough for
-- `ReceiveDataInternal` to end.
pub receive_data_internal_short :
    (results : List ℕ) (len : ℕ) (n : NetIo)
    → length n.arriving < len
    → receive_data_internal results len n ≡ fault out_of_fuel
unfolding receive_data_internal flush
receive_data_internal_short results len n h =
    rw (receive_loop_short results len [] (flush n) h) refl

-- Every call gives something.
abbrev pub AllPositive : List ℕ → Type 0
AllPositive [] = Unit
AllPositive (k ∷ results) = (0 < k) × AllPositive results

sum-AllPositive : (results : List ℕ) → AllPositive results → length results ≤ sum results
sum-AllPositive [] h = omega arith
sum-AllPositive (k ∷ results) h = omega (arith, h.0, sum-AllPositive results h.1)

-- If every call of `fwrite` and of `fread` moves at least one byte, as many calls as there are
-- bytes are enough for `SendBytes` and `ReceiveBytes` over an empty channel to end, and the bytes
-- arrive as they were sent.
pub receive_bytes-send_bytes :
    (writes reads bytes : List ℕ) (n m : NetIo)
    → AllPositive writes
    → AllPositive reads
    → length bytes ≤ length writes
    → length bytes ≤ length reads
    → n.sent ++ n.buffered ≡ []
    → m.arriving ≡ []
    → Returns
        (send_bytes writes bytes n)
        λ n'. Returns (receive_bytes reads (length bytes) (connected n' m)) λ r. r.0 ≡ bytes
unfolding send_bytes receive_bytes
receive_bytes-send_bytes writes reads bytes n m pw pr hw hr clean empty =
    let written =
      send_data_internal_lem writes bytes n (omega (arith, hw, sum-AllPositive writes pw)) in
    let n' : NetIo = record n {
      buffered = [];
      sent = n.sent ++ (n.buffered ++ bytes);
      total_bytes_sent = (n.total_bytes_sent + length bytes) % 2 ^ 64;
    } in
    let came : m.arriving ++ n'.sent ≡ bytes ++ [] =
      ap (λ (xs : List ℕ). xs ++ n'.sent) empty
      ∙ sym (append_assoc n.sent n.buffered bytes)
      ∙ ap (λ (xs : List ℕ). xs ++ bytes) clean
      ∙ sym (append-nil bytes) in
    (
      n',
      written,
      (
        _,
        receive_data_internal_lem reads bytes [] (connected n' m)
            (omega (arith, hr, sum-AllPositive reads pr)) came,
        refl,
      ),
    )
