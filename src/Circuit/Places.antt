-- ===== src/Circuit/Places.antt =====
-- Where the server of triangle_counting/functionalities.cpp finds the keys of its rows again, and
-- what its garbled cuckoo filter holds.
use sectric.Common.{
  ℕ, zero, suc, ◌+◌, ◌≡◌, refl, sym, ap, subst, ◌∙◌, inl, inr, false, List, [], ◌∷◌, ◌++◌, length,
  get_or, get_elem?, some, if◌then◌else◌, arith,
}
use native.Mathlib.Nat.{zero-add, add-zero}
use sectric.Common.Run.{Returns}
use sectric.Common.Loops.{update, update_self, update_apart}
use sectric.Block.Sse.{Block}
use sectric.Hashing.Agree.{Member, Member-append_left, Member-append_right}
use sectric.Hashing.Entry.{Entry, is_empty}
use sectric.Psi.Rows.{Distinct}
use sectric.Circuit.{HashLocMap, record_row, record_rows, filter_inputs, garbled_cell, garble}

pub Member-of_get_elem? :
    {A : Type 0} (xs : List A) (n : ℕ) (x : A) → get_elem? xs n ≡ some x → Member x xs
Member-of_get_elem? [] n x e = cc
Member-of_get_elem? (y ∷ xs) zero x e = inl (cc)
Member-of_get_elem? (y ∷ xs) (suc n) x e = inr (Member-of_get_elem? xs n x e)

pub get_elem?_of_Member :
    {A : Type 0} (xs : List A) (x : A) → Member x xs → (n : ℕ) × (get_elem? xs n ≡ some x)
get_elem?_of_Member [] x h = absurd h
get_elem?_of_Member (y ∷ xs) x (inl e) = (0, cc)
get_elem?_of_Member (y ∷ xs) x (inr m) = let (n, e) = get_elem?_of_Member xs x m in (suc n, e)

pub filter_inputs-Member :
    (rows : List (List ℕ)) (i : ℕ) (row : List ℕ) (key : ℕ)
    → get_elem? rows i ≡ some row
    → Member key row
    → Member key (filter_inputs rows)
unfolding filter_inputs
filter_inputs-Member [] i row key e m = cc
filter_inputs-Member (r ∷ rows) zero row key e m =
    let same : r ≡ row = cc in
    Member-append_left key r (filter_inputs rows) (subst (λ x. Member key x) (sym same) m)
filter_inputs-Member (r ∷ rows) (suc i) row key e m =
    Member-append_right key r (filter_inputs rows) (filter_inputs-Member rows i row key e m)

Distinct-left : (xs ys : List ℕ) → Distinct (xs ++ ys) → Distinct xs
Distinct-left [] ys d = tt
Distinct-left (x ∷ xs) ys d = (λ m. d.0 (Member-append_left x xs ys m), Distinct-left xs ys d.1)

Distinct-right : (xs ys : List ℕ) → Distinct (xs ++ ys) → Distinct ys
Distinct-right [] ys d = d
Distinct-right (x ∷ xs) ys d = Distinct-right xs ys d.1

Distinct-apart : (xs ys : List ℕ) (k : ℕ) → Distinct (xs ++ ys) → Member k xs → ¬ Member k ys
Distinct-apart [] ys k d m = absurd m
Distinct-apart (x ∷ xs) ys k d (inl e) =
    λ m. d.0 (Member-append_right x xs ys (subst (λ z. Member z ys) e m))
Distinct-apart (x ∷ xs) ys k d (inr m) = Distinct-apart xs ys k d.1 m

record_row-miss :
    (i j : ℕ) (row : List ℕ) (tloc : ℕ → HashLocMap) (key : ℕ)
    → ¬ Member key row
    → record_row i j row tloc key ≡ tloc key
unfolding record_row
record_row-miss i j [] tloc key h = refl
record_row-miss i j (x ∷ row) tloc key h =
    record_row-miss i (suc j) row _ key (λ m. h (inr m))
    ∙ update_apart tloc x key _ (λ e. h (inl (sym e)))

record_row-hit :
    (i j n : ℕ) (row : List ℕ) (tloc : ℕ → HashLocMap) (key : ℕ)
    → Distinct row
    → get_elem? row n ≡ some key
    → record_row i j row tloc key ≡ record { bin = i; index = j + n }
unfolding record_row
record_row-hit i j n [] tloc key d e = cc
record_row-hit i j zero (x ∷ row) tloc key d e =
    let same : x ≡ key = cc in
    let absent : ¬ Member key row = subst (λ z. ¬ Member z row) same d.0 in
    record_row-miss i (suc j) row _ key absent
    ∙ subst
        (λ z. update tloc z (record { bin = i; index = j }) key ≡ record { bin = i; index = j + 0 })
        (sym same)
        (update_self tloc key _ ∙ ap (λ n. record { bin = i; index = n }) (sym (add-zero j)))
record_row-hit i j (suc n) (x ∷ row) tloc key d e =
    let place : suc j + n ≡ j + suc n = omega arith in
    record_row-hit i (suc j) n row _ key d.1 e ∙ ap (λ n. record { bin = i; index = n }) place

record_rows-miss :
    (i : ℕ) (rows : List (List ℕ)) (tloc : ℕ → HashLocMap) (key : ℕ)
    → ¬ Member key (filter_inputs rows)
    → record_rows i rows tloc key ≡ tloc key
unfolding record_rows filter_inputs
record_rows-miss i [] tloc key h = refl
record_rows-miss i (row ∷ rows) tloc key h =
    record_rows-miss (suc i) rows _ key (λ m. h (Member-append_right key row _ m))
    ∙ record_row-miss i 0 row tloc key (λ m. h (Member-append_left key row _ m))

-- Among distinct keys, each is found where it stands.
pub record_rows-hit :
    (i b n : ℕ) (rows : List (List ℕ)) (row : List ℕ) (tloc : ℕ → HashLocMap) (key : ℕ)
    → Distinct (filter_inputs rows)
    → get_elem? rows b ≡ some row
    → get_elem? row n ≡ some key
    → record_rows i rows tloc key ≡ record { bin = i + b; index = n }
unfolding record_rows filter_inputs
record_rows-hit i b n [] row tloc key d e e' = cc
record_rows-hit i zero n (r ∷ rows) row tloc key d e e' =
    let same : r ≡ row = cc in
    let here : get_elem? r n ≡ some key = subst (λ x. get_elem? x n ≡ some key) (sym same) e' in
    record_rows-miss (suc i) rows _ key
      (Distinct-apart r (filter_inputs rows) key d (Member-of_get_elem? r n key here))
    ∙ record_row-hit i 0 n r tloc key (Distinct-left r (filter_inputs rows) d) here
    ∙ (λ k. record { bin = sym (add-zero i) k; index = zero-add n k })
record_rows-hit i (suc b) n (r ∷ rows) row tloc key d e e' =
    let place : suc i + b ≡ i + suc b = omega arith in
    record_rows-hit (suc i) b n rows row _ key (Distinct-right r (filter_inputs rows) d) e e'
    ∙ ap (λ m. record { bin = m; index = n }) place

module _ (prng : Block → ℕ → ℕ) (contents : ℕ → ℕ) (masks : ℕ → ℕ → Block)
    (tloc : ℕ → HashLocMap) where
  no_entry : (es : List Entry) (a : ℕ) (e : Entry) → length es ≡ 0 → get_elem? es a ≡ some e → ⊥
  no_entry [] a e w at = cc
  no_entry (x ∷ es) a e w at = absurd (omega (arith, w))

  abbrev pub Filled : List Entry → List ℕ → Type 0
  Filled es cells =
      (a : ℕ) (e : Entry)
      → get_elem? es a ≡ some e
      → is_empty e ≡ false
      → get_or cells a 0 ≡ garbled_cell prng contents masks tloc e

  head_or_rest :
      (x : Entry) (es : List Entry) (dummies : ℕ → ℕ) (rest : List ℕ)
      → Filled es rest
      → Filled
          (x ∷ es)
          ((if is_empty x then dummies 0 else garbled_cell prng contents masks tloc x) ∷ rest)
  head_or_rest x es dummies rest found zero e at full =
      let same : x ≡ e = cc in
      let here : is_empty x ≡ false = subst (λ y. is_empty y ≡ false) (sym same) full in
      rw here (ap (garbled_cell prng contents masks tloc) same)
  head_or_rest x es dummies rest found (suc a) e at full = found a e at full

  -- Each full cell of the table has its cell of the filter.
  pub garble_lem :
      (left : ℕ) (es : List Entry) (dummies : ℕ → ℕ)
      → length es ≡ left
      → Returns (garble prng contents masks tloc left es dummies) (Filled es)
  unfolding garble
  garble_lem zero es dummies width = ([], refl, λ a e at full. absurd (no_entry es a e width at))
  garble_lem (suc left) [] dummies width = absurd (omega arith)
  garble_lem (suc left) (x ∷ es) dummies width =
      let (rest, ends, found) =
        garble_lem left es (λ n. if is_empty x then dummies (suc n) else dummies n)
          (omega (arith, width)) in
      rw ends (_, refl, head_or_rest x es dummies rest found)
