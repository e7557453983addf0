-- ===== src/Equality/Doubling.antt =====
-- The loop `for (i = 1; i < num_digits; i *= 2)` of the AND trees in triangle_counting/equality.h
-- and triangle_counting/batch_equality.h, and what it computes when each round multiplies pairs.
use sectric.Common.{
  ℕ, zero, suc, ◌+◌, ◌-◌, ◌*◌, ◌/◌, ◌<◌, ◌≤◌, ◌≡◌, ◌≢◌, refl, sym, ap, subst, ◌∙◌, inl, inr, Bool,
  true, false, ◌&&◌, ltb, if◌then◌else◌, Option, none, some, arith, Bool-cases,
}
use Prim.Native.Nat.{min}
use native.Mathlib.Decide.{dec_lt}
use native.Mathlib.Nat.{le-div_iff_mul-le}
use sectric.Equality.Conj.{conj, conj-append}

-- The number of rounds of `for (j = 0; j < num_digits and j + i < num_digits; j += 2 * i)`.
abbrev pub rounds : ℕ → ℕ → ℕ
rounds num_digits i = (num_digits + i - 1) / (2 * i)

-- The loop, `step i count` its body and `count` the triples that are used so far; `none` if the
-- fuel runs out.
unfoldable pub doubling {ℓ} :
    {S : Type ℓ} → ℕ → (ℕ → ℕ) → (ℕ → ℕ → S → S) → ℕ → ℕ → ℕ → S → Option S
doubling num_digits used step zero i count s = if ltb i num_digits then none else some s
doubling num_digits used step (suc fuel) i count s = elim (ltb i num_digits) [
  | true ↦ doubling num_digits used step fuel (i * 2) (count + used i) (step i count s)
  | false ↦ some s
]

-- A pair's products cover the digits of both.
conj_pair :
    (f : ℕ → Bool) (j i nd : ℕ)
    → j + i < nd
    → conj f j (min i (nd - j)) && conj f (j + i) (min i (nd - (j + i)))
      ≡ conj f j (min (i * 2) (nd - j))
conj_pair f j i nd h =
    let first : min i (nd - j) ≡ i = omega arith in
    let whole : min (i * 2) (nd - j) ≡ i + min i (nd - (j + i)) = omega arith in
    rw (first, whole) (sym (conj-append f i (min i (nd - (j + i))) j))

pub rounds_bound : (nd i n : ℕ) → 0 < i → n < rounds nd i → 2 * i * n + i < nd
rounds_bound nd i n h lt =
    let bound : suc n * (2 * i) ≤ nd + i - 1 = (le-div_iff_mul-le (omega arith)).0 lt in omega arith

rounds_reach : (nd i n : ℕ) → 0 < i → 2 * i * n + i < nd → n < rounds nd i
rounds_reach nd i n h lt = (le-div_iff_mul-le (omega arith)).1 (omega arith)

-- Each round multiplies the second digit of every pair into the first, and keeps all others. What
-- a state holds is seen as a row of digits for each lane.
module _ {S L : Type 0} (nd : ℕ) (used : ℕ → ℕ) (step : ℕ → ℕ → S → S) (Ok : L → Type 0)
    (digit : S → L → ℕ → Bool)
    (pair : (i count : ℕ) (s : S) (x : L) (n : ℕ)
      → 0 < i
      → Ok x
      → n < rounds nd i
      → digit (step i count s) x (2 * i * n) ≡ digit s x (2 * i * n) && digit s x (2 * i * n + i))
    (rest : (i count : ℕ) (s : S) (x : L) (j : ℕ)
      → 0 < i
      → Ok x
      → j < nd
      → ((n : ℕ) → n < rounds nd i → 2 * i * n ≢ j)
      → digit (step i count s) x j ≡ digit s x j) where
  -- After the levels below stride `i`, each digit at a multiple of `i` is the conjunction of the
  -- digits of `f` up to the next multiple.
  abbrev Holds : (ℕ → Bool) → S → L → ℕ → Type 0
  Holds f s x i = (d j : ℕ) → j ≡ i * d → j < nd → digit s x j ≡ conj f j (min i (nd - j))

  step-Holds :
      (f : ℕ → Bool) (s : S) (count : ℕ) (x : L) (i : ℕ)
      → 0 < i
      → Ok x
      → Holds f s x i
      → Holds f (step i count s) x (i * 2)
  step-Holds f s count x i pos within holds d j e lj = elim (dec_lt (2 * i * d + i) nd) [
    | yes inside ↦
        let here : j ≡ 2 * i * d = omega (arith, e) in
        subst (λ j. digit (step i count s) x j ≡ conj f j (min (i * 2) (nd - j))) (sym here)
          (pair i count s x d pos within (rounds_reach nd i d pos inside)
            ∙ rw
                (
                  holds (2 * d) (2 * i * d) (omega arith) (omega arith),
                  holds (2 * d + 1) (2 * i * d + i) (omega arith) inside,
                )
                (conj_pair f (2 * i * d) i nd inside))
    | no beyond ↦
        let short : min (i * 2) (nd - j) ≡ min i (nd - j) = omega (arith, e, beyond) in
        rest i count s x j pos within lj (λ n hn same.
          let bound = rounds_bound nd i n pos hn in absurd (omega (arith, same, e, bound, beyond)))
        ∙ holds (d * 2) j (omega arith) lj
        ∙ rw short refl
  ]

  whole :
      (f : ℕ → Bool) (s : S) (x : L) (i : ℕ)
      → 0 < nd
      → nd ≤ i
      → Holds f s x i
      → digit s x 0 ≡ conj f 0 nd
  whole f s x i some_digit reached holds =
      let all : min i (nd - 0) ≡ nd = omega arith in
      holds 0 0 (omega arith) some_digit ∙ ap (conj f 0) all

  doubling-Holds :
      (fuel : ℕ) (f : L → ℕ → Bool) (s : S) (i count : ℕ)
      → 0 < i
      → nd ≤ i + fuel
      → 0 < nd
      → ((x : L) → Ok x → Holds (f x) s x i)
      → (r : S) × (doubling nd used step fuel i count s ≡ some r)
        × ((x : L) → Ok x → digit r x 0 ≡ conj (f x) 0 nd)
  unfolding doubling
  doubling-Holds zero f s i count pos enough some_digit holds =
      let over : ltb i nd ≡ false = ground arith in
      (s, rw over refl, λ x k. whole (f x) s x i some_digit (omega arith) (holds x k))
  doubling-Holds (suc fuel) f s i count pos enough some_digit holds = elim (Bool-cases (ltb i nd)) [
    | inl under ↦
        rw (doubling, under)
          (doubling-Holds fuel f (step i count s) (i * 2) (count + used i) (omega arith)
            (omega arith) some_digit (λ x k. step-Holds (f x) s count x i pos k (holds x k)))
    | inr over ↦
        rw (doubling, over)
          (s, refl, λ x k. whole (f x) s x i some_digit (ground arith) (holds x k))
  ]

  -- With one unit of fuel for each digit the loop ends, and leaves in each lane's first digit the
  -- conjunction of all its digits.
  pub doubling_lem :
      (s : S)
      → 0 < nd
      → (r : S) × (doubling nd used step nd 1 0 s ≡ some r)
        × ((x : L) → Ok x → digit r x 0 ≡ conj (digit s x) 0 nd)
  doubling_lem s some_digit =
      doubling-Holds nd (digit s) s 1 0 (omega arith) (omega arith) some_digit
        (λ x k d j e lj. let one : min 1 (nd - j) ≡ 1 = omega arith in rw one (ground arith))
