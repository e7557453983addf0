-- ===== src/Circuit/Nonces.antt =====
-- The nonces of triangle_counting/functionalities.cpp for `PSM2`, under which the masks of a bin
-- go to different places of the bin's four cells.
use sectric.Common.{
  ℕ, zero, suc, ◌+◌, ◌<◌, ◌≤◌, ◌≡◌, ◌≢◌, refl, sym, ap, ◌∙◌, inl, inr, ◌==◌, List, ◌∷◌, none, some,
  arith, Bool-cases, Option-cases, ==_iff,
}
use native.Mathlib.Decide.{ℕ_discrete}
use sectric.Common.Loops.{update, update_self, update_apart}
use sectric.Block.Sse.{Block}
use sectric.Circuit.Table.{ts, place_masks, find_nonce}

-- The masks of a bin go to different places.
abbrev pub Separate : ℕ → (ℕ → ℕ) → Type 0
Separate ffuns bitaddress = (j k : ℕ) → j < k → k < ffuns → bitaddress j ≢ bitaddress k

-- The nonces `ns` serve `left` bins from bin `i` on: for each bin comes, after some nonces that do
-- not separate its masks, one that does.
pub data Serves (Fits : ℕ → Block → Type 0) : ℕ → ℕ → List Block → Type 0 where
  done : {i : ℕ} {ns : List Block} → Serves Fits zero i ns
  skip :
      {left i : ℕ} {n : Block} {ns : List Block}
      → ¬ Fits i n
      → Serves Fits (suc left) i ns
      → Serves Fits (suc left) i (n ∷ ns)
  take :
      {left i : ℕ} {n : Block} {ns : List Block}
      → Fits i n
      → Serves Fits left (suc i) ns
      → Serves Fits (suc left) i (n ∷ ns)

place_masks-stop :
    (bitaddress : ℕ → ℕ) (left j : ℕ) (places : ℕ → ℕ)
    → places (bitaddress j) ≢ ts
    → place_masks bitaddress (suc left) j places ≡ none
unfolding place_masks
place_masks-stop bitaddress left j places h = elim (Bool-cases (places (bitaddress j) == ts)) [
  | inl same ↦ absurd (h ((==_iff _ _).0 same))
  | inr apart ↦ rw apart
]

place_masks-go :
    (bitaddress : ℕ → ℕ) (left j : ℕ) (places : ℕ → ℕ)
    → places (bitaddress j) ≡ ts
    → place_masks bitaddress (suc left) j places
      ≡ place_masks bitaddress left (suc j) (update places (bitaddress j) j)
unfolding place_masks
place_masks-go bitaddress left j places h = rw ((==_iff _ _).1 h)

abbrev Kept : ℕ → (ℕ → ℕ) → (ℕ → ℕ) → ℕ → ℕ → Type 0
Kept left bitaddress places j a =
    (final : ℕ → ℕ)
    → j + left ≤ ts
    → place_masks bitaddress left j places ≡ some final
    → places a ≢ ts
    → final a ≡ places a

-- A place that is taken stays as it is.
place_masks-Kept :
    (bitaddress : ℕ → ℕ) (left j : ℕ) (places : ℕ → ℕ) (a : ℕ) → Kept left bitaddress places j a
unfolding place_masks
place_masks-Kept bitaddress zero j places a final few run taken =
    let same : places ≡ final = cc in ap (λ (f : ℕ → ℕ). f a) (sym same)
place_masks-Kept bitaddress (suc left) j places a final few run taken =
    elim (ℕ_discrete (places (bitaddress j)) ts) [
      | no other ↦ absurd (cc (place_masks-stop bitaddress left j places other))
      | yes free ↦
          let apart : bitaddress j ≢ a = λ e. taken (ap places (sym e) ∙ free) in
          let same = update_apart places (bitaddress j) a j apart in
          place_masks-Kept bitaddress left (suc j) (update places (bitaddress j) j) a final
            (omega (arith, few)) (sym (place_masks-go bitaddress left j places free) ∙ run)
            (λ e. taken (sym same ∙ e))
          ∙ same
    ]

-- Every mask is found at its place.
pub place_masks-placed :
    (bitaddress : ℕ → ℕ) (left j : ℕ) (places final : ℕ → ℕ) (k : ℕ)
    → j + left ≤ ts
    → place_masks bitaddress left j places ≡ some final
    → j ≤ k
    → k < j + left
    → final (bitaddress k) ≡ k
place_masks-placed bitaddress zero j places final k few run from below = absurd (omega arith)
place_masks-placed bitaddress (suc left) j places final k few run from below =
    elim (ℕ_discrete (places (bitaddress j)) ts) [
      | no other ↦ absurd (cc (place_masks-stop bitaddress left j places other))
      | yes free ↦
          let rest = sym (place_masks-go bitaddress left j places free) ∙ run in
          let later = update places (bitaddress j) j in
          let fits : suc j + left ≤ ts = omega (arith, few) in
          elim (ℕ_discrete j k) [
            | no apart ↦
                place_masks-placed bitaddress left (suc j) later final k fits rest
                  (omega (arith, apart, from)) (omega (arith, below))
            | yes same ↦
                let own = update_self places (bitaddress j) j in
                let kept =
                  place_masks-Kept bitaddress left (suc j) later (bitaddress j) final fits rest
                    (λ e. omega (arith, own, e, few)) in
                ap (λ (m : ℕ). final (bitaddress m)) (sym same) ∙ kept ∙ own ∙ same
          ]
    ]

-- Masks with different places are all placed.
place_masks-some :
    (bitaddress : ℕ → ℕ) (left j : ℕ) (places : ℕ → ℕ)
    → ((i k : ℕ) → j ≤ i → i < k → k < j + left → bitaddress i ≢ bitaddress k)
    → ((k : ℕ) → j ≤ k → k < j + left → places (bitaddress k) ≡ ts)
    → (final : ℕ → ℕ) × (place_masks bitaddress left j places ≡ some final)
unfolding place_masks
place_masks-some bitaddress zero j places apart free = (places, refl)
place_masks-some bitaddress (suc left) j places apart free =
    let now = free j (omega arith) (omega arith) in
    let (final, run) =
      place_masks-some bitaddress left (suc j) (update places (bitaddress j) j)
        (λ i k h l m. apart i k (omega (arith, h)) l (omega (arith, m)))
        (λ k h l.
          update_apart places (bitaddress j) (bitaddress k) j
            (apart j k (omega arith) (omega (arith, h)) (omega (arith, l)))
          ∙ free k (omega (arith, h)) (omega (arith, l))) in
    (final, place_masks-go bitaddress left j places now ∙ run)

pub Separate-place_masks :
    (bitaddress final : ℕ → ℕ) (ffuns : ℕ)
    → ffuns ≤ ts
    → place_masks bitaddress ffuns 0 (λ a. ts) ≡ some final
    → Separate ffuns bitaddress
Separate-place_masks bitaddress final ffuns few run j k before below same =
    let first =
      place_masks-placed bitaddress ffuns 0 (λ a. ts) final j (omega (arith, few)) run (omega arith)
        (omega (arith, before, below)) in
    let second =
      place_masks-placed bitaddress ffuns 0 (λ a. ts) final k (omega (arith, few)) run (omega arith)
        (omega (arith, below)) in
    omega (arith, before, sym first ∙ ap final same ∙ second)

-- A bin's next nonce that separates its masks is found, with the places of the masks.
pub find_nonce-Serves :
    (Fits : ℕ → Block → Type 0) (bitaddress : Block → ℕ → ℕ) (ffuns left i : ℕ) (ns : List Block)
    → ffuns ≤ ts
    → ((n : Block) → Fits i n → Separate ffuns (bitaddress n))
    → ((n : Block) → Separate ffuns (bitaddress n) → Fits i n)
    → Serves Fits (suc left) i ns
    → (n : Block) × (final : ℕ → ℕ) × (later : List Block) × (find_nonce bitaddress ffuns ns
        ≡ some (n, final, later))
      × (place_masks (bitaddress n) ffuns 0 (λ a. ts) ≡ some final)
      × Serves Fits left (suc i) later
unfolding find_nonce
find_nonce-Serves Fits bitaddress ffuns left i all few to from (skip {n = n} {ns = ns} bad rest) =
    elim (Option-cases (place_masks (bitaddress n) ffuns 0 (λ a. ts))) [
      | inl stop ↦
          let (m, final, later, run, placed, more) =
            find_nonce-Serves Fits bitaddress ffuns left i ns few to from rest in
          (m, final, later, rw (find_nonce, stop) run, placed, more)
      | inr (final, go) ↦
          absurd (bad (from n (Separate-place_masks (bitaddress n) final ffuns few go)))
    ]
find_nonce-Serves Fits bitaddress ffuns left i all few to from (take {n = n} {ns = ns} good rest) =
    let apart = to n good in
    let (final, go) =
      place_masks-some (bitaddress n) ffuns 0 (λ a. ts)
        (λ j k h l m. apart j k l (omega (arith, m))) (λ k h l. refl) in
    (n, final, ns, rw (find_nonce, go), go, rest)
