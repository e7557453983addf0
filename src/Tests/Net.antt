-- ===== src/Tests/Net.antt =====
-- Messages over the channels of debug_files/stream_channel.hpp and debug_files/net_io_channel.h.
use sectric.Common.{
  ◌*◌, ◌/◌, ◌<◌, ◌≤◌, ap, ◌∙◌, length-append, ℕ, zero, suc, ◌+◌, ◌%◌, ◌^◌, ◌≡◌, refl, false,
  if◌then◌else◌, ltb, Bool-cases, ◌⊎◌, inl, inr, Option, none, some, List, [], ◌∷◌, ◌++◌, length,
  replicate, arith,
}
use sectric.Net.Items.{
  ℤ, pos, negsuc, abs, send_big_int, receive_big_int, IsBinary, receive_big_int-send_big_int,
}
use sectric.Common.Run.{fault, out_of_fuel, Returns}
use sectric.Net.{
  NetIo, receive_data_internal, send_bytes, receive_bytes, send_bytes_vector, receive_bytes_vector,
  connected,
}
use sectric.Net.Stream.{receive_data_internal_short, receive_bytes-send_bytes}
use sectric.Net.Vectors.{receive_bytes_vector-send_bytes_vector}
use sectric.Net.Sync.{
  System, system, after, server_sends, client_receives, client_sends, server_receives, stay, go,
  start, client_phase, sync_barrier, sync_progress, ◌⟶◌, ◌⟶*◌,
}
use sectric.Net.Sci.{SciNetIo, send_data, recv_data, recv_data-send_data}

abbrev fresh : NetIo
fresh = record {
  buffered = [];
  sent = [];
  arriving = [];
  total_bytes_sent = 0;
  total_bytes_received = 0;
}

-- Four bytes, written in two pieces and read in three.
receive_bytes-send_bytes_example :
    Returns (send_bytes (3 ∷ 9 ∷ 1 ∷ 1 ∷ []) (5 ∷ 6 ∷ 7 ∷ 8 ∷ []) fresh) λ n'.
      Returns
        (receive_bytes (1 ∷ 2 ∷ 1 ∷ 1 ∷ []) 4 (connected n' fresh))
        λ r. r.0 ≡ 5 ∷ 6 ∷ 7 ∷ 8 ∷ []
receive_bytes-send_bytes_example =
    receive_bytes-send_bytes (3 ∷ 9 ∷ 1 ∷ 1 ∷ []) (1 ∷ 2 ∷ 1 ∷ 1 ∷ []) (5 ∷ 6 ∷ 7 ∷ 8 ∷ []) fresh
      fresh (omega arith, (omega arith, (omega arith, (omega arith, tt))))
      (omega arith, (omega arith, (omega arith, (omega arith, tt)))) (omega arith) (omega arith)
      refl refl

-- The other party closed after one byte.
receive_data_internal_short_example :
    receive_data_internal (1 ∷ 0 ∷ 0 ∷ 0 ∷ []) 2 (record fresh { arriving = 4 ∷ [] })
    ≡ fault out_of_fuel
receive_data_internal_short_example =
    receive_data_internal_short (1 ∷ 0 ∷ 0 ∷ 0 ∷ []) 2 (record fresh { arriving = 4 ∷ [] })
      (omega arith)

receive_bytes_vector_example :
    Returns
      (send_bytes_vector 0 (8 ∷ []) (5 ∷ 3 ∷ []) (9 ∷ []) ((1 ∷ 2 ∷ []) ∷ (3 ∷ 4 ∷ []) ∷ []) fresh)
      λ n'.
        Returns
          (receive_bytes_vector (9 ∷ []) (1 ∷ 7 ∷ []) (2 ∷ 2 ∷ []) (connected n' fresh))
          λ r. r.0 ≡ (1 ∷ 2 ∷ []) ∷ (3 ∷ 4 ∷ []) ∷ []
receive_bytes_vector_example =
    receive_bytes_vector-send_bytes_vector 0 (8 ∷ []) (5 ∷ 3 ∷ []) (9 ∷ []) (9 ∷ []) (1 ∷ 7 ∷ [])
      (2 ∷ 2 ∷ []) (1 ∷ 2 ∷ []) ((3 ∷ 4 ∷ []) ∷ []) fresh fresh (refl, tt) (omega arith)
      (omega arith) (omega arith) (omega arith, omega arith, omega arith)
      (omega arith, omega arith, omega arith) refl refl

whole_sync : start ⟶* system after after [] []
whole_sync = go server_sends (go client_receives (go client_sends (go server_receives stay)))

sync_barrier_example : client_phase (system after after [] []) ≡ after
sync_barrier_example = sync_barrier (system after after [] []) whole_sync refl

sync_progress_example : (start ≡ system after after [] []) ⊎ ((t : System) × start ⟶ t)
sync_progress_example = sync_progress start stay

recv_data-send_data_example :
    let n : SciNetIo = record {
      stream = record fresh { arriving = 3 ∷ 4 ∷ [] };
      has_sent = false;
      counter = 7;
    } in
    Returns (send_data (2 ∷ []) (1 ∷ 2 ∷ []) n) λ a. Returns (recv_data (1 ∷ []) 1 a) λ z.
      (z.0 ≡ 3 ∷ [])
      × (z.1.stream.buffered ≡ [])
      × (z.1.stream.sent ≡ n.stream.sent ++ (n.stream.buffered ++ (1 ∷ 2 ∷ [])))
      × (z.1.stream.arriving ≡ 4 ∷ [])
      × (z.1.counter ≡ (n.counter + 2) % 2 ^ 64)
recv_data-send_data_example =
    recv_data-send_data (2 ∷ []) (1 ∷ []) (1 ∷ 2 ∷ []) (3 ∷ []) (4 ∷ [])
      (record { stream = record fresh { arriving = 3 ∷ 4 ∷ [] }; has_sent = false; counter = 7 })
      (omega arith) (omega arith) refl

-- A library of numbers that are one byte long.
-- Numbers as their digits to base 256, the highest first.
abbrev digits : ℕ → ℕ → List ℕ
digits zero v = []
digits (suc len) v = digits len (v / 256) ++ (v % 256) ∷ []

abbrev number : List ℕ → ℕ → ℕ
number [] above = above
number (d ∷ ds) above = number ds (256 * above + d)

abbrev absolute_digits : ℤ → ℕ → Option (List ℕ)
absolute_digits a len = if ltb (abs a) (256 ^ len) then some (digits len (abs a)) else none

number-append :
    (ds : List ℕ) (d above : ℕ) → number (ds ++ d ∷ []) above ≡ 256 * number ds above + d
number-append [] d above = refl
number-append (x ∷ ds) d above = number-append ds d (256 * above + x)

number-digits : (len v : ℕ) → v < 256 ^ len → number (digits len v) 0 ≡ v
number-digits zero v h = omega (arith, h)
number-digits (suc len) v h =
    let power : 256 ^ suc len ≡ 256 * 256 ^ len = grind arith in
    let less : v / 256 < 256 ^ len = omega (arith, h, power) in
    omega
      (arith, number-append (digits len (v / 256)) (v % 256) 0, number-digits len (v / 256) less)

length-digits : (len v : ℕ) → length (digits len v) ≡ len
length-digits zero v = refl
length-digits (suc len) v =
    omega
      (arith, length-append (digits len (v / 256)) ((v % 256) ∷ []), length-digits len (v / 256))

number-zeros : (len : ℕ) → number (replicate len 0) 0 ≡ 0
number-zeros zero = refl
number-zeros (suc len) = number-zeros len

-- What is written when something is.
written :
    (a : ℤ) (len : ℕ) (bytes : List ℕ)
    → absolute_digits a len ≡ some bytes
    → (abs a < 256 ^ len) × (bytes ≡ digits len (abs a))
written a len bytes h = elim (Bool-cases (ltb (abs a) (256 ^ len))) [
  | inl fits ↦
      let e : some (digits len (abs a)) ≡ some bytes = rw fits at h in (ground (arith, fits), cc)
  | inr large ↦ absurd (let e : none ≡ some bytes = rw large at h in cc)
]

refused : (a : ℤ) (len : ℕ) → absolute_digits a len ≡ none → 256 ^ len ≤ abs a
refused a len h = elim (Bool-cases (ltb (abs a) (256 ^ len))) [
  | inl fits ↦ absurd (let e : some (digits len (abs a)) ≡ none = rw fits at h in cc)
  | inr large ↦ ground (arith, large)
]

absolute_digits-IsBinary : IsBinary absolute_digits (λ ds. pos (number ds 0))
absolute_digits-IsBinary = record {
  refused = refused;
  fitting = λ a len bytes h. (written a len bytes h).0;
  width_of =
      λ a len bytes h. ap (length {A = ℕ}) (written a len bytes h).1 ∙ length-digits len (abs a);
  read_back = λ a len bytes h.
      let (fits, same) = written a len bytes h in
      ap (λ ds. pos (number ds 0)) same ∙ ap pos (number-digits len (abs a) fits);
  zeros_read = λ len. ap pos (number-zeros len);
}

-- -300 arrives as 300 in two bytes.
receive_big_int_example :
    Returns
      (send_big_int absolute_digits (λ ds. pos (number ds 0)) (2 ∷ []) (negsuc 299) 2 fresh)
      λ n'.
        Returns
          (receive_big_int absolute_digits
            (λ ds. pos (number ds 0))
            (2 ∷ [])
            2
            (connected n' fresh))
          λ r. r.0 ≡ pos 300
receive_big_int_example =
    receive_big_int-send_big_int absolute_digits (λ ds. pos (number ds 0)) absolute_digits-IsBinary
      (2 ∷ []) (2 ∷ []) (negsuc 299) 2 fresh fresh (omega arith) (omega arith) refl refl
