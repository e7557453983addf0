-- ===== src/Equality/Conj.antt =====
-- The conjunction of a row of Booleans: what the tree of triangle_counting/equality.h computes.
use sectric.Common.{
  ℕ, zero, suc, ◌+◌, ◌<◌, ◌≤◌, ◌≡◌, refl, sym, ap₂, subst, Bool, true, ◌&&◌, arith,
}
use native.Mathlib.Nat.{zero-add, add-zero}

-- The conjunction of `count` Booleans from place `lo` on.
abbrev pub conj : (ℕ → Bool) → ℕ → ℕ → Bool
conj f lo zero = true
conj f lo (suc count) = f lo && conj f (suc lo) count

pub conj-cong :
    (f g : ℕ → Bool) (count lo : ℕ)
    → ((i : ℕ) → lo ≤ i → i < lo + count → f i ≡ g i)
    → conj f lo count ≡ conj g lo count
conj-cong f g zero lo h = refl
conj-cong f g (suc count) lo h =
    ap₂ (λ (x y : Bool). x && y) (h lo (omega arith) (omega arith))
      (conj-cong f g count (suc lo) (λ i k l. h i (omega arith) (omega arith)))

pub conj-append : (f : ℕ → Bool) (a b lo : ℕ) → conj f lo (a + b) ≡ conj f lo a && conj f (lo + a) b
conj-append f zero b lo = rw (zero-add b, add-zero lo) refl
conj-append f (suc a) b lo =
    let shift : suc lo + a ≡ lo + suc a = omega arith in
    let total : suc a + b ≡ suc (a + b) = omega arith in
    let ih : conj f (suc lo) (a + b) ≡ conj f (suc lo) a && conj f (lo + suc a) b =
      subst (λ n. conj f (suc lo) (a + b) ≡ conj f (suc lo) a && conj f n b) shift
        (conj-append f a b (suc lo)) in
    subst (λ n. conj f lo n ≡ (f lo && conj f (suc lo) a) && conj f (lo + suc a) b) (sym total)
      (ground (arith, ih))
