-- ===== src/Common/Fill.antt =====
-- Nested counted loops that write an array at one address for each combination of the counters.
use Prim.Native.Nat.{ℕ, ◌<◌}
use mathlib.Core.Path.{◌≡◌}
use mathlib.Core.Logic.{◌≢◌}
use native.Mathlib.Omega.{arith}
use sectric.Common.Loops.{for_each, update, update_self, update_apart, for_each-hit, for_each-miss}

abbrev pub Address2 : Type 0
Address2 = ℕ → ℕ → ℕ

abbrev pub Address3 : Type 0
Address3 = ℕ → ℕ → ℕ → ℕ

-- Different counters give different addresses: the last counter within a row, and each outer
-- counter while all are in range.
abbrev pub ApartRow : ℕ → Address2 → Type 0
ApartRow m addr = (i j j' : ℕ) → j < m → j' < m → addr i j ≡ addr i j' → j ≡ j'

abbrev pub Apart2 : ℕ → ℕ → Address2 → Type 0
Apart2 n m addr = (i i' j j' : ℕ) → i < n → i' < n → j < m → j' < m → addr i j ≡ addr i' j' → i ≡ i'

abbrev pub Apart3 : ℕ → ℕ → ℕ → Address3 → Type 0
Apart3 n m l addr =
    (i i' j j' k k' : ℕ)
    → i < n
    → i' < n
    → j < m
    → j' < m
    → k < l
    → k' < l
    → addr i j k ≡ addr i' j' k'
    → i ≡ i'

-- The outermost of four counters.
abbrev pub Apart4 : ℕ → ℕ → ℕ → ℕ → (ℕ → Address3) → Type 0
Apart4 n m l o addr =
    (c d j j' k k' u u' : ℕ)
    → c < n
    → d < n
    → (j < m) × (k < l) × (u < o)
    → (j' < m) × (k' < l) × (u' < o)
    → addr c j k u ≡ addr d j' k' u'
    → c ≡ d

module _ {V : Type 0} where
  unfoldable pub fill1 : ℕ → (ℕ → ℕ) → (ℕ → V) → (ℕ → V) → ℕ → V
  fill1 n addr val s = for_each n (λ i a. update a (addr i) (val i)) s

  unfoldable pub fill2 : ℕ → ℕ → Address2 → (ℕ → ℕ → V) → (ℕ → V) → ℕ → V
  fill2 n m addr val s = for_each n (λ i. fill1 m (addr i) (val i)) s

  unfoldable pub fill3 : ℕ → ℕ → ℕ → Address3 → (ℕ → ℕ → ℕ → V) → (ℕ → V) → ℕ → V
  fill3 n m l addr val s = for_each n (λ i. fill2 m l (addr i) (val i)) s

  unfoldable pub fill4 : ℕ → ℕ → ℕ → ℕ → (ℕ → Address3) → (ℕ → ℕ → ℕ → ℕ → V) → (ℕ → V) → ℕ → V
  fill4 n m l o addr val s = for_each n (λ i. fill3 m l o (addr i) (val i)) s

  module _ (m : ℕ) (addr : ℕ → ℕ) (val : ℕ → V)
      (apart : (i j : ℕ) → i < m → j < m → addr i ≡ addr j → i ≡ j) where
    pub fill1-miss :
        (s : ℕ → V) (x : ℕ) → ((i : ℕ) → i < m → addr i ≢ x) → fill1 m addr val s x ≡ s x
    unfolding fill1
    fill1-miss s x h =
        for_each-miss (λ (u : Unit {0}). Unit {0}) (λ c u. addr c) (λ c u. val c)
          (λ i a. update a (addr i) (val i)) (λ c a u k. update_self a (addr c) (val c))
          (λ c a y k. update_apart a (addr c) y (val c) (k tt tt)) m
          (λ c d u v lc ld k l e same. e (apart c d lc ld same)) m s x (λ c u l k. h c l)

    pub fill1-hit : (s : ℕ → V) (i : ℕ) → i < m → fill1 m addr val s (addr i) ≡ val i
    unfolding fill1
    fill1-hit s i h =
        for_each-hit (λ (u : Unit {0}). Unit {0}) (λ c u. addr c) (λ c u. val c)
          (λ i a. update a (addr i) (val i)) (λ c a u k. update_self a (addr c) (val c))
          (λ c a y k. update_apart a (addr c) y (val c) (k tt tt)) m
          (λ c d u v lc ld k l e same. e (apart c d lc ld same)) m s i tt (omega arith) h tt

  module _ (n m : ℕ) (addr : Address2) (val : ℕ → ℕ → V) (row : ApartRow m addr)
      (apart : Apart2 n m addr) where
    pub fill2-miss :
        (s : ℕ → V) (x : ℕ)
        → ((i j : ℕ) → i < n → j < m → addr i j ≢ x)
        → fill2 n m addr val s x ≡ s x
    unfolding fill2
    fill2-miss s x h =
        for_each-miss (λ j. j < m) addr val (λ i. fill1 m (addr i) (val i))
          (λ c a j k. fill1-hit m (addr c) (val c) (row c) a j k)
          (λ c a y k. fill1-miss m (addr c) (val c) (row c) a y k) n
          (λ c d i j lc ld li lj e same. e (apart c d i j lc ld li lj same)) n s x
          (λ c i l k. h c i l k)

    pub fill2-hit :
        (s : ℕ → V) (i j : ℕ) → i < n → j < m → fill2 n m addr val s (addr i j) ≡ val i j
    unfolding fill2
    fill2-hit s i j k l =
        for_each-hit (λ j. j < m) addr val (λ i. fill1 m (addr i) (val i))
          (λ c a j k. fill1-hit m (addr c) (val c) (row c) a j k)
          (λ c a y k. fill1-miss m (addr c) (val c) (row c) a y k) n
          (λ c d i j lc ld li lj e same. e (apart c d i j lc ld li lj same)) n s i j (omega arith) k
          l

  module _ (n m l : ℕ) (addr : Address3) (val : ℕ → ℕ → ℕ → V) (row : (c : ℕ) → ApartRow l (addr c))
      (plane : (c : ℕ) → Apart2 m l (addr c)) (apart : Apart3 n m l addr) where
    abbrev InCell : ℕ × ℕ → Type 0
    InCell i = (i.0 < m) × (i.1 < l)

    fill3_hits :
        (c : ℕ) (a : ℕ → V) (i : ℕ × ℕ)
        → InCell i
        → fill2 m l (addr c) (val c) a (addr c i.0 i.1) ≡ val c i.0 i.1
    fill3_hits c a i k = fill2-hit m l (addr c) (val c) (row c) (plane c) a i.0 i.1 k.0 k.1

    fill3_misses :
        (c : ℕ) (a : ℕ → V) (y : ℕ)
        → ((i : ℕ × ℕ) → InCell i → addr c i.0 i.1 ≢ y)
        → fill2 m l (addr c) (val c) a y ≡ a y
    fill3_misses c a y k =
        fill2-miss m l (addr c) (val c) (row c) (plane c) a y (λ i j li lj. k (i, j) (li, lj))

    cells_apart :
        (c d : ℕ) (i j : ℕ × ℕ)
        → c < n
        → d < n
        → InCell i
        → InCell j
        → c ≢ d
        → addr c i.0 i.1 ≢ addr d j.0 j.1
    cells_apart c d i j lc ld ki kj e same =
        e (apart c d i.0 j.0 i.1 j.1 lc ld ki.0 kj.0 ki.1 kj.1 same)

    pub fill3-miss :
        (s : ℕ → V) (x : ℕ)
        → ((i j k : ℕ) → i < n → j < m → k < l → addr i j k ≢ x)
        → fill3 n m l addr val s x ≡ s x
    unfolding fill3
    fill3-miss s x h =
        for_each-miss InCell (λ c i. addr c i.0 i.1) (λ c i. val c i.0 i.1)
          (λ i. fill2 m l (addr i) (val i)) fill3_hits fill3_misses n cells_apart n s x
          (λ c i lc k. h c i.0 i.1 lc k.0 k.1)

    pub fill3-hit :
        (s : ℕ → V) (i j k : ℕ)
        → i < n
        → j < m
        → k < l
        → fill3 n m l addr val s (addr i j k) ≡ val i j k
    unfolding fill3
    fill3-hit s i j k hi hj hk =
        for_each-hit InCell (λ c i. addr c i.0 i.1) (λ c i. val c i.0 i.1)
          (λ i. fill2 m l (addr i) (val i)) fill3_hits fill3_misses n cells_apart n s i (j, k)
          (omega arith) hi (hj, hk)

  module _ (n m l o : ℕ) (addr : ℕ → Address3) (val : ℕ → ℕ → ℕ → ℕ → V)
      (row : (c d : ℕ) → ApartRow o (addr c d)) (plane : (c d : ℕ) → Apart2 l o (addr c d))
      (cube : (c : ℕ) → Apart3 m l o (addr c)) (apart : Apart4 n m l o addr) where
    abbrev InBlock : ℕ × ℕ × ℕ → Type 0
    InBlock x = (x.0 < m) × (x.1 < l) × (x.2 < o)

    fill4_hits :
        (c : ℕ) (a : ℕ → V) (x : ℕ × ℕ × ℕ)
        → InBlock x
        → fill3 m l o (addr c) (val c) a (addr c x.0 x.1 x.2) ≡ val c x.0 x.1 x.2
    fill4_hits c a x k =
        fill3-hit m l o (addr c) (val c) (row c) (plane c) (cube c) a x.0 x.1 x.2 k.0 k.1 k.2

    fill4_misses :
        (c : ℕ) (a : ℕ → V) (y : ℕ)
        → ((x : ℕ × ℕ × ℕ) → InBlock x → addr c x.0 x.1 x.2 ≢ y)
        → fill3 m l o (addr c) (val c) a y ≡ a y
    fill4_misses c a y h =
        fill3-miss m l o (addr c) (val c) (row c) (plane c) (cube c) a y
          (λ j k u lj lk lu. h (j, k, u) (lj, lk, lu))

    blocks_apart :
        (c d : ℕ) (x y : ℕ × ℕ × ℕ)
        → c < n
        → d < n
        → InBlock x
        → InBlock y
        → c ≢ d
        → addr c x.0 x.1 x.2 ≢ addr d y.0 y.1 y.2
    blocks_apart c d x y lc ld kx ky e same = e (apart c d x.0 y.0 x.1 y.1 x.2 y.2 lc ld kx ky same)

    pub fill4-miss :
        (s : ℕ → V) (x : ℕ)
        → ((c j k u : ℕ) → c < n → (j < m) × (k < l) × (u < o) → addr c j k u ≢ x)
        → fill4 n m l o addr val s x ≡ s x
    unfolding fill4
    fill4-miss s x h =
        for_each-miss InBlock (λ c y. addr c y.0 y.1 y.2) (λ c y. val c y.0 y.1 y.2)
          (λ i. fill3 m l o (addr i) (val i)) fill4_hits fill4_misses n blocks_apart n s x
          (λ c y lc k. h c y.0 y.1 y.2 lc k)

    pub fill4-hit :
        (s : ℕ → V) (c j k u : ℕ)
        → c < n
        → (j < m) × (k < l) × (u < o)
        → fill4 n m l o addr val s (addr c j k u) ≡ val c j k u
    unfolding fill4
    fill4-hit s c j k u lc inside =
        for_each-hit InBlock (λ c y. addr c y.0 y.1 y.2) (λ c y. val c y.0 y.1 y.2)
          (λ i. fill3 m l o (addr i) (val i)) fill4_hits fill4_misses n blocks_apart n s c (j, k, u)
          (omega arith) lc inside
