-- ===== src/Common/Loops.antt =====
-- Counted loops that write an array: a body that writes a region of its own in each round leaves
-- every region written, and everything else as it was.
use Prim.Native.Nat.{ℕ, zero, suc, ◌<◌, ◌≤◌}
use mathlib.Core.Path.{◌≡◌, refl, ◌∙◌, subst, sym}
use mathlib.Core.Logic.{◌≢◌, inl, inr}
use native.Mathlib.Decide.{ℕ_discrete}
use native.Mathlib.Omega.{arith}
use sectric.Common.Tests.{◌==◌, if◌then◌else◌, ==_iff, Bool-cases}

-- The rounds 0 to n - 1, in this order.
unfoldable pub for_each {ℓ} : {S : Type ℓ} → ℕ → (ℕ → S → S) → S → S
for_each zero body s = s
for_each (suc n) body s = body n (for_each n body s)

-- An array as the function that reads it.
unfoldable pub update {ℓ} : {V : Type ℓ} → (ℕ → V) → ℕ → V → ℕ → V
update a i v j = if i == j then v else a j

pub update_self {ℓ} : {V : Type ℓ} (a : ℕ → V) (i : ℕ) (v : V) → update a i v i ≡ v
unfolding update
update_self a i v = rw ((==_iff i i).1 refl)

pub update_apart {ℓ} : {V : Type ℓ} (a : ℕ → V) (i j : ℕ) (v : V) → i ≢ j → update a i v j ≡ a j
unfolding update
update_apart a i j v h = elim (Bool-cases (i == j)) [
  | inl same ↦ absurd (h ((==_iff i j).0 same))
  | inr apart ↦ rw apart
]

-- Round `c` writes `val c i` at `addr c i` for each `i` of the region `Ok`, and nothing else.
module _ {I V : Type 0} (Ok : I → Type 0) (addr : ℕ → I → ℕ) (val : ℕ → I → V)
    (body : ℕ → (ℕ → V) → ℕ → V)
    (hit : (c : ℕ) (s : ℕ → V) (i : I) → Ok i → body c s (addr c i) ≡ val c i)
    (miss : (c : ℕ) (s : ℕ → V) (x : ℕ) → ((i : I) → Ok i → addr c i ≢ x) → body c s x ≡ s x)
    (bound : ℕ)
    (apart : (c d : ℕ) (i j : I)
      → c < bound
      → d < bound
      → Ok i
      → Ok j
      → c ≢ d
      → addr c i ≢ addr d j) where
  pub for_each-miss :
      (n : ℕ) (s : ℕ → V) (x : ℕ)
      → ((c : ℕ) (i : I) → c < n → Ok i → addr c i ≢ x)
      → for_each n body s x ≡ s x
  unfolding for_each
  for_each-miss zero s x h = refl
  for_each-miss (suc n) s x h =
      miss n (for_each n body s) x (λ i k. h n i (omega arith) k)
      ∙ for_each-miss n s x (λ c i l k. h c i (omega arith) k)

  pub for_each-hit :
      (n : ℕ) (s : ℕ → V) (c : ℕ) (i : I)
      → n ≤ bound
      → c < n
      → Ok i
      → for_each n body s (addr c i) ≡ val c i
  unfolding for_each
  for_each-hit zero s c i w l k = elim l [ ]
  for_each-hit (suc n) s c i w l k = elim (ℕ_discrete n c) [
    | yes same ↦
        subst (λ d. body d (for_each n body s) (addr c i) ≡ val c i) (sym same)
          (hit c (for_each n body s) i k)
    | no other ↦
        miss n (for_each n body s) (addr c i)
          (λ j m. apart n c j i (omega arith) (omega arith) m k other)
        ∙ for_each-hit n s c i (omega arith) (omega arith) k
  ]
