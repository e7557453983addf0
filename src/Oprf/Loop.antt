-- ===== src/Oprf/Loop.antt =====
-- The unrolled loops of debug_files/vole_oprf.hpp against the plain one.
use sectric.Common.{
  ℕ, zero, suc, ◌+◌, ◌≤◌, ◌≡◌, refl, ap, subst, ◌∙◌, true, false, if◌then◌else◌, ltb, leb, arith,
  Bool-cases, inl, inr,
}
use native.Mathlib.Decide.{ℕ_discrete}
use sectric.Common.Loops.{update, update_self, update_apart}
use sectric.Block.Sse.{Block}
use sectric.Oprf.{eight, by_eight, one_by_one, combine_in_place}

-- What place `j` holds when the places below `i` are done.
abbrev pub done_below : (Block → Block → Block) → (ℕ → Block) → (ℕ → Block) → ℕ → ℕ → Block
done_below f p k i j = if ltb j i then f (k j) (p j) else k j

module _ (f : Block → Block → Block) (p k : ℕ → Block) where
  abbrev Done : ℕ → (ℕ → Block) → Type 0
  Done i a = (j : ℕ) → a j ≡ done_below f p k i j

  step-Done :
      (i i' : ℕ) (a : ℕ → Block) → i' ≡ i + 1 → Done i a → Done i' (update a i (f (a i) (p i)))
  step-Done i i' a e h j = elim (ℕ_discrete i j) [
    | yes same ↦
        let here : ltb i i ≡ false = ground arith in
        let below : ltb i i' ≡ true = ground (arith, e) in
        let value : f (a i) (p i) ≡ f (k i) (p i) =
          ap (λ (b : Block). f b (p i)) (h i ∙ rw here refl) in
        subst (λ j. update a i (f (a i) (p i)) j ≡ done_below f p k i' j) same
          (update_self a i _ ∙ value ∙ rw below refl)
    | no apart ↦
        let test : ltb j i' ≡ ltb j i = ground (arith, e, apart) in
        update_apart a i j _ apart ∙ h j ∙ rw test refl
  ]

  eight-Done : (i : ℕ) (a : ℕ → Block) → Done i a → Done (i + 8) (eight f p i a)
  unfolding eight
  eight-Done i a h = step-Done (i + 7) (i + 8) _ (omega arith) (
      step-Done (i + 6) (i + 7) _ (omega arith) (
        step-Done (i + 5) (i + 6) _ (omega arith) (
          step-Done (i + 4) (i + 5) _ (omega arith) (
            step-Done (i + 3) (i + 4) _ (omega arith) (
              step-Done (i + 2) (i + 3) _ (omega arith)
                (step-Done (i + 1) (i + 2) _ (omega arith) (step-Done i (i + 1) a refl h)))))))

  module _ (size : ℕ) where
    by_eight-Done :
        (fuel i : ℕ) (a : ℕ → Block)
        → i ≤ size
        → Done i a
        → let r = by_eight f p size fuel i a in (r.0 ≤ size) × Done r.0 r.1
    unfolding by_eight
    by_eight-Done zero i a l h = (l, h)
    by_eight-Done (suc fuel) i a l h = elim (Bool-cases (leb (i + 8) size)) [
      | inl room ↦
          let inside : i + 8 ≤ size = ground (arith, room) in
          rw (by_eight, room) (by_eight-Done fuel (i + 8) (eight f p i a) inside (eight-Done i a h))
      | inr full ↦ rw (by_eight, full) (l, h)
    ]

    one_by_one-Done :
        (fuel i : ℕ) (a : ℕ → Block)
        → i ≤ size
        → size ≤ i + fuel
        → Done i a
        → Done size (one_by_one f p size fuel i a)
    unfolding one_by_one
    one_by_one-Done zero i a l enough h =
        let end : i ≡ size = omega (arith, l, enough) in subst (λ n. Done n a) end h
    one_by_one-Done (suc fuel) i a l enough h = elim (Bool-cases (ltb i size)) [
      | inl room ↦
          let inside : i + 1 ≤ size = ground (arith, room) in
          rw (one_by_one, room)
            (one_by_one-Done fuel (i + 1) (update a i (f (a i) (p i))) inside
              (omega (arith, enough)) (step-Done i (i + 1) a refl h))
      | inr full ↦
          let end : i ≡ size = ground (arith, full, l) in
          rw (one_by_one, full) (subst (λ n. Done n a) end h)
    ]

    -- The loop that is unrolled eight times and the loop for the rest change each place below the
    -- size once, to the function of what it was and of the other array, and no place beyond.
    pub combine_in_place_lem :
        (j : ℕ) → combine_in_place f p size k j ≡ (if ltb j size then f (k j) (p j) else k j)
    unfolding combine_in_place
    combine_in_place_lem =
        let start : Done 0 k = λ j. (let none : ltb j 0 ≡ false = ground arith in rw none refl) in
        let first = by_eight-Done size 0 k (omega arith) start in
        one_by_one-Done size _ _ first.0 (omega arith) first.1
