-- ===== src/Psi/Rounds.antt =====
-- What the messages of triangle_counting/circuit_psi.cpp carry, bin by bin.
use sectric.Common.{
  ℕ, zero, suc, ◌+◌, ◌^◌, ◌<◌, ◌≤◌, ◌≡◌, refl, sym, ap, subst, inl, inr, Bool, true, false, ◌==◌,
  if◌then◌else◌, List, [], ◌∷◌, get_or, length, arith, Bool-cases, ==_iff,
}
use native.Mathlib.Decide.{ℕ_discrete}
use native.Mathlib.Nat.{add-zero}
use sectric.Block.{add_with_carry}
use sectric.Block.Sse.{Block, make_block, zero_block}
use sectric.Psi.{element_value, front, advance, block_0, ot_rounds}

-- The bin numbers increase, from `i` on.
abbrev pub Increasing : ℕ → List ℕ → Type 0
Increasing i [] = Unit
Increasing i (x ∷ xs) = (i ≤ x) × Increasing (suc x) xs

-- The value of the element that the receiver keeps in bin `b`, 0 for an empty bin.
abbrev pub weight : List ℕ → ℕ → List ℕ → List Block → ℕ
weight vec b [] ck = 0
weight vec b (x ∷ xs) ck =
    if b == x
    then element_value vec (front zero_block ck).low
    else weight vec b xs (advance true ck)

element_value-lt : (vec : List ℕ) (key : ℕ) → element_value vec key < 2 ^ 64
unfolding element_value
element_value-lt [] key = omega arith
element_value-lt (x ∷ xs) key = ground (arith, element_value-lt xs key)

pub weight-lt :
    (vec : List ℕ) (b : ℕ) (idxs : List ℕ) (ck : List Block) → weight vec b idxs ck < 2 ^ 64
weight-lt vec b [] ck = omega arith
weight-lt vec b (x ∷ xs) ck =
    ground
      (arith, element_value-lt vec (front zero_block ck).low, weight-lt vec b xs (advance true ck))

weight-early :
    (vec : List ℕ) (b i : ℕ) (idxs : List ℕ) (ck : List Block)
    → b < i
    → Increasing i idxs
    → weight vec b idxs ck ≡ 0
weight-early vec b i [] ck h inc = refl
weight-early vec b i (x ∷ xs) ck h inc =
    let apart : (b == x) ≡ false = ground (arith, inc.0) in
    rw apart (weight-early vec b (suc x) xs (advance true ck) (omega (arith, inc.0)) inc.1)

-- The pair of messages of a bin.
abbrev pub bin_messages : (ℕ → Bool) → (ℕ → Block) → ℕ → ℕ → Block × Block
bin_messages ans ot_r b w =
    let other = add_with_carry (ot_r b) (make_block 0 w) in
    if ans b then (other, ot_r b) else (ot_r b, other)

module _ (vec : List ℕ) (past : ℕ) (ans : ℕ → Bool) (ot_r : ℕ → Block) where
  abbrev pub Carries : ℕ → ℕ → List ℕ → List Block → List Block × List Block → Type 0
  Carries left i idxs ck ot =
      (k : ℕ)
      → k < left
      → (get_or ot.0 k zero_block ≡ (bin_messages ans ot_r (i + k) (weight vec (i + k) idxs ck)).0)
        × (get_or ot.1 k zero_block
            ≡ (bin_messages ans ot_r (i + k) (weight vec (i + k) idxs ck)).1)

  abbrev pub Sent : ℕ → ℕ → List ℕ → List Block → List Block × List Block → Type 0
  Sent left i idxs ck ot = (length ot.0 ≡ left) × (length ot.1 ≡ left) × Carries left i idxs ck ot

  abbrev joined : ℕ → Block → List Block × List Block → List Block × List Block
  joined i other rest =
      if ans i then (other ∷ rest.0, ot_r i ∷ rest.1) else (ot_r i ∷ rest.0, other ∷ rest.1)

  module _ (left i : ℕ) (idxs idxs' : List ℕ) (ck ck' : List Block) (other : Block)
      (rest : List Block × List Block)
      (same : other ≡ add_with_carry (ot_r i) (make_block 0 (weight vec i idxs ck)))
      (later : (b : ℕ) → i < b → weight vec b idxs ck ≡ weight vec b idxs' ck')
      (ih : Sent left (suc i) idxs' ck' rest) where
    joined-Carries : Carries (suc left) i idxs ck (joined i other rest)
    joined-Carries zero l = elim (Bool-cases (ans i)) [
      | inl set ↦ rw (add-zero i, set) (same, refl)
      | inr clear ↦ rw (add-zero i, clear) (refl, same)
    ]
    joined-Carries (suc k) l =
        let shift : i + suc k ≡ suc i + k = omega arith in
        elim (Bool-cases (ans i)) [
          | inl set ↦ rw (shift, later (suc i + k) (omega arith), set) (ih.2 k (omega arith))
          | inr clear ↦ rw (shift, later (suc i + k) (omega arith), clear) (ih.2 k (omega arith))
        ]

    joined-Sent : Sent (suc left) i idxs ck (joined i other rest)
    joined-Sent = elim (Bool-cases (ans i)) [
      | inl set ↦ (rw set (ap suc ih.0), rw set (ap suc ih.1), joined-Carries)
      | inr clear ↦ (rw clear (ap suc ih.0), rw clear (ap suc ih.1), joined-Carries)
    ]

  pub ot_rounds-Sent :
      (left i : ℕ) (idxs : List ℕ) (ck : List Block)
      → Increasing i idxs
      → i + left ≤ past
      → Sent left i idxs ck (ot_rounds vec past ans ot_r left i idxs ck)
  unfolding ot_rounds block_0
  ot_rounds-Sent zero i idxs ck inc h = (refl, refl, λ k l. elim l [ ])
  ot_rounds-Sent (suc left) i [] ck inc h =
      let empty : (i == past) ≡ false = ground arith in
      rw empty (
        joined-Sent left i [] [] ck ck _ _ refl (λ b l. refl)
          (ot_rounds-Sent left (suc i) [] ck tt (omega arith)))
  ot_rounds-Sent (suc left) i (x ∷ xs) ck inc h = elim (ℕ_discrete i x) [
    | yes here ↦
        let occupied : (i == x) ≡ true = (==_iff i x).1 here in
        rw occupied (
          joined-Sent left i (x ∷ xs) xs ck (advance true ck) _ _ (rw occupied refl)
            (λ b l. let apart : (b == x) ≡ false = ground (arith, here, l) in rw apart refl)
            (ot_rounds-Sent left (suc i) xs (advance true ck)
              (subst (λ n. Increasing (suc n) xs) (sym here) inc.1) (omega arith)))
    | no other ↦
        let empty : (i == x) ≡ false = ground (arith, other) in
        let none : weight vec i (x ∷ xs) ck ≡ 0 =
          weight-early vec i (suc i) (x ∷ xs) ck (omega arith)
            (omega (arith, inc.0, other), inc.1) in
        rw empty (
          joined-Sent left i (x ∷ xs) (x ∷ xs) ck ck _ _ (rw none refl) (λ b l. refl)
            (ot_rounds-Sent left (suc i) (x ∷ xs) ck (omega (arith, inc.0, other), inc.1)
              (omega arith)))
  ]
