-- ===== src/Equality/Batch/Extract.antt =====
-- The loops of `computeLeafOTs` in triangle_counting/batch_equality.h that take the bits of the
-- received messages apart: they read and overwrite one array.
use sectric.Common.{
  ℕ, zero, suc, ◌+◌, ◌-◌, ◌*◌, ◌/◌, ◌%◌, ◌^◌, ◌<◌, ◌≤◌, ◌≡◌, ◌≢◌, refl, sym, ap, subst, ◌∙◌, arith,
}
use native.Mathlib.Decide.{ℕ_discrete}
use sectric.Common.Loops.{for_each, update, update_self, update_apart}
use sectric.Common.Places.{row_unique}
use sectric.Equality.Batch.{BatchConfig, extract}

module _ (c : BatchConfig) where
  open c use {base, batch_size}

  abbrev size : ℕ
  size = base.num_digits * base.num_cmps

  -- Where bit `j` of message `i` goes.
  abbrev pub bit_at : ℕ → ℕ → ℕ
  bit_at j i = j * base.num_digits * base.num_cmps + i

  bit_at_unique :
      (j j' i i' : ℕ) → i < size → i' < size → bit_at j i ≡ bit_at j' i' → (j ≡ j') × (i ≡ i')
  bit_at_unique j j' i i' h h' e =
      let same : j ≡ j' = row_unique j j' i i' size h h' (omega (arith, e)) in
      (same, omega (arith, e, ap (λ (x : ℕ). x * base.num_digits * base.num_cmps) same))

  abbrev spread : ℕ → ℕ → (ℕ → ℕ) → ℕ → ℕ
  spread i round s = let j = batch_size - 1 - round in update s (bit_at j i) (s i / 2 ^ j % 2)

  module _ (i : ℕ) (inside : i < size) (s : ℕ → ℕ) where
    spread-miss :
        (r : ℕ) (x : ℕ)
        → r ≤ batch_size
        → ((j : ℕ) → j < batch_size → batch_size ≤ j + r → bit_at j i ≢ x)
        → for_each r (spread i) s x ≡ s x
    unfolding for_each
    spread-miss zero x h apart = refl
    spread-miss (suc r) x h apart =
        update_apart (for_each r (spread i) s) (bit_at (batch_size - 1 - r) i) x _
          (apart (batch_size - 1 - r) (omega arith) (omega arith))
        ∙ spread-miss r x (omega arith) (λ j l k. apart j l (omega arith))

    -- The message itself is overwritten last.
    unread : (r : ℕ) → r < batch_size → for_each r (spread i) s i ≡ s i
    unread r h = spread-miss r i (omega arith) (λ j l k e.
        let none = (bit_at_unique j 0 i i inside inside (omega (arith, e))).0 in
        absurd (omega (arith, none)))

    spread-hit :
        (r j : ℕ)
        → r ≤ batch_size
        → j < batch_size
        → batch_size ≤ j + r
        → for_each r (spread i) s (bit_at j i) ≡ s i / 2 ^ j % 2
    unfolding for_each
    spread-hit zero j h l k = absurd (omega arith)
    spread-hit (suc r) j h l k =
        let t = for_each r (spread i) s in
        let j' = batch_size - 1 - r in
        elim (ℕ_discrete j j') [
          | yes same ↦
              subst (λ n. update t (bit_at j' i) (t i / 2 ^ j' % 2) (bit_at n i) ≡ s i / 2 ^ n % 2)
                (sym same)
                (update_self t (bit_at j' i) (t i / 2 ^ j' % 2)
                  ∙ ap (λ (x : ℕ). x / 2 ^ j' % 2) (unread r (omega arith)))
          | no other ↦
              update_apart t (bit_at j' i) (bit_at j i) (t i / 2 ^ j' % 2)
                (λ e. other (sym ((bit_at_unique j' j i i inside inside e).0)))
              ∙ spread-hit r j (omega arith) l (omega (arith, other))
        ]

  abbrev pass : ℕ → (ℕ → ℕ) → ℕ → ℕ
  pass i s = for_each batch_size (spread i) s

  passes-miss :
      (leaf_eq : ℕ → ℕ) (n x : ℕ)
      → n ≤ size
      → ((i j : ℕ) → i < n → j < batch_size → bit_at j i ≢ x)
      → for_each n pass leaf_eq x ≡ leaf_eq x
  unfolding for_each
  passes-miss leaf_eq zero x h apart = refl
  passes-miss leaf_eq (suc n) x h apart =
      spread-miss n (omega arith) (for_each n pass leaf_eq) batch_size x (omega arith)
        (λ j l k. apart n j (omega arith) l)
      ∙ passes-miss leaf_eq n x (omega arith) (λ i j l k. apart i j (omega arith) k)

  passes-hit :
      (leaf_eq : ℕ → ℕ) (n i j : ℕ)
      → n ≤ size
      → i < n
      → j < batch_size
      → for_each n pass leaf_eq (bit_at j i) ≡ leaf_eq i / 2 ^ j % 2
  unfolding for_each
  passes-hit leaf_eq zero i j h l k = elim l [ ]
  passes-hit leaf_eq (suc n) i j h l k =
      let t = for_each n pass leaf_eq in
      elim (ℕ_discrete i n) [
        | yes same ↦
            let fresh : t n ≡ leaf_eq n = passes-miss leaf_eq n n (omega arith) (λ i' j' l' k' e.
              let clash =
                (bit_at_unique j' 0 i' n (omega arith) (omega arith) (omega (arith, e))).1 in
              absurd (omega (arith, clash, l'))) in
            subst (λ m. pass n t (bit_at j m) ≡ leaf_eq m / 2 ^ j % 2) (sym same)
              (spread-hit n (omega arith) t batch_size j (omega arith) k (omega arith)
                ∙ ap (λ (x : ℕ). x / 2 ^ j % 2) fresh)
        | no other ↦
            spread-miss n (omega arith) t batch_size (bit_at j i) (omega arith)
              (λ j' l' k' e. other (sym ((bit_at_unique j' j n i (omega arith) (omega arith) e).1)))
            ∙ passes-hit leaf_eq n i j (omega arith) (omega (arith, other, l)) k
      ]

  -- After the loops that take the received messages apart in place, the place of each bit of each
  -- message holds that bit of what the message was before, although the messages stand where the
  -- lowest bits go.
  pub extract_lem :
      (leaf_eq : ℕ → ℕ) (i j : ℕ)
      → i < size
      → j < batch_size
      → extract c leaf_eq (bit_at j i) ≡ leaf_eq i / 2 ^ j % 2
  unfolding extract
  extract_lem leaf_eq i j h l = passes-hit leaf_eq size i j (omega arith) h l
