-- ===== src/Graph/Served.antt =====
-- What the server of triangle_counting/triangle.h has when all clients have sent.
use sectric.Common.{
  ℕ, zero, suc, ◌+◌, ◌*◌, ◌%◌, ◌^◌, ◌<◌, ◌≤◌, ◌≡◌, ◌≢◌, refl, sym, ap, ◌∙◌, true, false, ◌==◌,
  if◌then◌else◌, ltb, leb, List, [], ◌∷◌, ◌++◌, length, length-append, map, arith,
}
use mathlib.Core.List.{append_assoc}
use sectric.Common.Run.{ok}
use sectric.Block.Sse.{Block}
use sectric.Graph.{write_blocks}
use sectric.Graph.RoundTrip.{AreBlocks}
use sectric.Oprf.{block_to_byte, byte_to_block}
use sectric.Oprf.Bytes.{byte_to_block-block_to_byte, length-write_blocks}
use sectric.Net.{split_at}
use sectric.Graph.Request.{insert, client_key, serialize_vector, send_message, serve, start_server}

-- No entry has this key.
abbrev pub Lacks : ℕ → List (ℕ × List Block) → Type 0
Lacks k [] = Unit
Lacks k (e ∷ m) = (e.0 ≢ k) × Lacks k m

-- The clients' vectors: of blocks, within the buffer, and under identifiers that differ and are
-- not negative as an `int`.
abbrev pub AreClients : ℕ → List (ℕ × List Block) → Type 0
AreClients size [] = Unit
AreClients size (c ∷ cs) =
    (c.0 < 2 ^ 31) × AreBlocks c.1 × (length c.1 ≤ size) × Lacks c.0 cs × AreClients size cs

insert-Lacks :
    (k : ℕ) (v : List Block) (m : List (ℕ × List Block))
    → Lacks k m
    → insert m k v ≡ m ++ (k, v) ∷ []
unfolding insert
insert-Lacks k v [] h = refl
insert-Lacks k v (e ∷ m) h =
    let other : (e.0 == k) ≡ false = ground (arith, h.0) in
    rw other (ap (λ (xs : List (ℕ × List Block)). e ∷ xs) (insert-Lacks k v m h.1))

Lacks-append : (k : ℕ) (m n : List (ℕ × List Block)) → Lacks k m → Lacks k n → Lacks k (m ++ n)
Lacks-append k [] n h l = l
Lacks-append k (e ∷ m) n h l = (h.0, Lacks-append k m n h.1 l)

split_at-all : (k : ℕ) (xs : List ℕ) → length xs ≤ k → (split_at k xs).0 ≡ xs
unfolding split_at
split_at-all zero [] h = refl
split_at-all zero (x ∷ xs) h = absurd (omega (arith, h))
split_at-all (suc k) [] h = refl
split_at-all (suc k) (x ∷ xs) h =
    ap (λ (ys : List ℕ). x ∷ ys) (split_at-all k xs (omega (arith, h)))

-- The message that a client sends.
abbrev pub message : List ℕ → ℕ × List Block → ℕ × List ℕ
message stale c = send_message stale c.0 c.1

message_lem :
    (stale : List ℕ) (c : ℕ × List Block)
    → c.0 < 2 ^ 31
    → (client_key (message stale c).0 ≡ c.0) × ((message stale c).1 ≡ write_blocks c.1)
unfolding client_key send_message serialize_vector
message_lem stale c h =
    let kept : c.0 % 2 ^ 32 ≡ c.0 = omega (arith, h) in
    let small : ltb c.0 (2 ^ 31) ≡ true = ground (arith, h) in
    let fits : ltb (16 * length c.1) (16 * length c.1) ≡ false = ground arith in
    (rw kept (rw small refl), rw fits refl)

AllLack : List (ℕ × List Block) → List (ℕ × List Block) → Type 0
AllLack [] m = Unit
AllLack (c ∷ cs) m = Lacks c.0 m × AllLack cs m

AllLack-append :
    (cs m : List (ℕ × List Block)) (c : ℕ × List Block)
    → AllLack cs m
    → Lacks c.0 cs
    → AllLack cs (m ++ c ∷ [])
unfolding AllLack
AllLack-append [] m c h l = tt
AllLack-append (d ∷ cs) m c h l =
    (Lacks-append d.0 m (c ∷ []) h.0 ((λ e. l.0 (sym e)), tt), AllLack-append cs m c h.1 l.1)

AllLack-nothing : (cs : List (ℕ × List Block)) → AllLack cs []
unfolding AllLack
AllLack-nothing [] = tt
AllLack-nothing (c ∷ cs) = (tt, AllLack-nothing cs)

-- The round of one client.
round :
    (recv_num size : ℕ) (stale : List ℕ) (c : ℕ × List Block) (rest : List (ℕ × List ℕ))
    (m : List (ℕ × List Block))
    → AreClients size (c ∷ [])
    → Lacks c.0 m
    → serve recv_num (16 * size + 4) (message stale c ∷ rest) m ≡ (
        if leb recv_num (length m + 1)
        then ok (m ++ c ∷ [])
        else serve recv_num (16 * size + 4) rest (m ++ c ∷ []))
unfolding serve block_to_byte
round recv_num size stale c rest m h lacks =
    let (key, bytes) = message_lem stale c h.0 in
    let w = length-write_blocks c.1 in
    let received : (split_at (16 * size + 4) (message stale c).1).0 ≡ write_blocks c.1 =
      ap (λ (xs : List ℕ). (split_at (16 * size + 4) xs).0) bytes
      ∙ split_at-all (16 * size + 4) (write_blocks c.1) (omega (arith, w, h.2)) in
    let whole : (length (write_blocks c.1) % 16 == 0) ≡ true = ground (arith, w) in
    let back : byte_to_block (write_blocks c.1) ≡ c.1 = byte_to_block-block_to_byte c.1 h.1 in
    let grown : length (m ++ c ∷ []) ≡ length m + 1 = length-append m (c ∷ []) in
    rw (received, key, back, whole, insert-Lacks c.0 c.1 m lacks, grown) refl

serve_lem :
    (recv_num size : ℕ) (stale : List ℕ) (c : ℕ × List Block) (cs m : List (ℕ × List Block))
    → AreClients size (c ∷ cs)
    → AllLack (c ∷ cs) m
    → recv_num ≡ length m + (1 + length cs)
    → serve recv_num (16 * size + 4) (map (message stale) (c ∷ cs)) m ≡ ok (m ++ c ∷ cs)
unfolding AllLack
serve_lem recv_num size stale c [] m h lacks count =
    let full : leb recv_num (length m + 1) ≡ true = ground (arith, count) in
    round recv_num size stale c [] m (h.0, h.1, h.2, tt, tt) lacks.0 ∙ rw full refl
serve_lem recv_num size stale c (d ∷ cs) m h lacks count =
    let more : leb recv_num (length m + 1) ≡ false = ground (arith, count) in
    round recv_num size stale c (map (message stale) (d ∷ cs)) m (h.0, h.1, h.2, tt, tt) lacks.0
    ∙ rw more (
        serve_lem recv_num size stale d cs (m ++ c ∷ []) h.4
          (AllLack-append (d ∷ cs) m c lacks.1 h.3) (omega (arith, count, length-append m (c ∷ [])))
        ∙ ap (λ (xs : List (ℕ × List Block)). ok xs) (append_assoc m (c ∷ []) (d ∷ cs)))

-- The server that waits for as many clients as send, at least one, with different identifiers
-- below 2 ^ 31 and vectors of blocks that are not longer than announced, ends and has each
-- client's vector.
pub start_server_lem :
    (size : ℕ) (stale : List ℕ) (clients : List (ℕ × List Block))
    → AreClients size clients
    → 0 < length clients
    → start_server (length clients) size (map (message stale) clients) ≡ ok clients
unfolding start_server
start_server_lem size stale [] h some = elim some [ ]
start_server_lem size stale (c ∷ cs) h some =
    serve_lem (length (c ∷ cs)) size stale c cs [] h (AllLack-nothing (c ∷ cs)) (omega arith)
