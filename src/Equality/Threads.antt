-- ===== src/Equality/Threads.antt =====
-- `perform_equality` of triangle_counting/equality.h: the comparisons in two threads. The threads
-- have channels and parts of the arrays of their own, so they are run one after the other.
use sectric.Common.{
  ℕ, ◌+◌, ◌-◌, ◌*◌, ◌/◌, ◌%◌, ◌^◌, ◌<◌, ◌≤◌, ◌≡◌, refl, ap, ◌∙◌, inl, inr, Bool, ◌==◌,
  if◌then◌else◌, ltb, lt→ltb, ltb→lt, arith, Bool-cases,
}
use sectric.Common.Run.{Run, ok, ◌>>=◌}
use sectric.Equality.Leaf.{Transfer}
use sectric.Equality.Traverse.{Packing}
use sectric.Equality.Compare.{Supply, equality_thread}
use sectric.Equality.Compare.Shares.{TransfersFor, HasTriples, ShareEquality, equality_thread_lem}

-- What the two threads leave in `z`.
unfoldable pub join_chunks : ℕ → ℕ → (ℕ → Bool) → (ℕ → Bool) → (ℕ → Bool) → ℕ → Bool
join_chunks chunk_size num_cmps first second stale i =
    if ltb i chunk_size
    then first i
    else if ltb i num_cmps
    then second (i - chunk_size)
    else stale i

unfoldable pub perform_equality :
    Packing
    → Transfer
    → Supply
    → Supply
    → (ℕ → ℕ)
    → (ℕ → ℕ)
    → ℕ
    → ℕ
    → ℕ
    → (ℕ → Bool)
    → Run ((ℕ → Bool) × (ℕ → Bool))
perform_equality p ot supply_0 supply_1 x y l b num_cmps stale = do
  let chunk_size = num_cmps / (8 * 2) * 8
  z ← equality_thread p ot 0 supply_0 chunk_size x y l b
  z' ←
      equality_thread p ot 1 supply_1 (num_cmps - chunk_size) (λ i. x (chunk_size + i))
        (λ i. y (chunk_size + i)) l b
  ok (
    join_chunks chunk_size num_cmps z.0 z'.0 stale,
    join_chunks chunk_size num_cmps z.1 z'.1 stale,
  )

module _ (p : Packing) (ot : Transfer) (l beta n w : ℕ) (aligned : n ≡ 8 * w) (positive : 0 < beta)
    (small : beta ≤ 8) (some_bit : 0 < l) (short : l ≤ 64) (few : l % beta ≤ 4)
    (contract : TransfersFor beta ot) where
  -- Under the conditions on one thread, and for any multiple of eight comparisons, both threads
  -- of `perform_equality` end, and the parties' shares of every comparison add up to whether the
  -- two words agree on their low `l` bits.
  pub perform_equality_lem :
      (supply_0 supply_1 : Supply) (x y : ℕ → ℕ) (stale : ℕ → Bool)
      → HasTriples supply_0
      → HasTriples supply_1
      → (z : (ℕ → Bool) × (ℕ → Bool)) × (perform_equality p ot supply_0 supply_1 x y l beta n stale
          ≡ ok z)
        × ShareEquality l n x y z
  unfolding perform_equality join_chunks
  perform_equality_lem supply_0 supply_1 x y stale t0 t1 =
      let chunk = n / (8 * 2) * 8 in
      let run =
        equality_thread_lem p ot l beta chunk (n / 16) (omega arith) positive small some_bit short
          few contract 0 supply_0 x y t0 in
      let run' =
        equality_thread_lem p ot l beta (n - chunk) (w - n / 16) (omega (arith, aligned)) positive
          small some_bit short few contract 1 supply_1 (λ i. x (chunk + i)) (λ i. y (chunk + i))
          t1 in
      rw (run.1, run'.1)
        (
          _,
          refl,
          λ i h. elim (Bool-cases (ltb i chunk)) [
            | inl early ↦ rw early (run.2 i (ltb→lt _ _ early))
            | inr late ↦
                let within = lt→ltb _ _ h in
                let from : chunk ≤ i = ground (arith, late) in
                let back : chunk + (i - chunk) ≡ i = omega (arith, from) in
                rw (late, within)
                  (run'.2 (i - chunk) (omega (arith, from, h))
                    ∙ ap (λ (j : ℕ). x j % 2 ^ l == y j % 2 ^ l) back)
          ],
        )
