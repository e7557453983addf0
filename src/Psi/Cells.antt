-- ===== src/Psi/Cells.antt =====
-- The bins of triangle_counting/circuit_psi.cpp one by one: what the receiver places in a bin, what
-- the bin weighs, and the sum over the bins as a sum over the entries of the table.
use sectric.Common.{
  ℕ, zero, suc, ◌+◌, ◌<◌, ◌≤◌, ◌≡◌, ◌≢◌, refl, sym, ap, ap₂, subst, ◌∙◌, inl, inr, true, false,
  ◌==◌, if◌then◌else◌, List, [], ◌∷◌, ◌++◌, length, map, get_elem?, some, arith, Bool-cases,
}
use native.Mathlib.Nat.{add-zero}
use native.Mathlib.Decide.{ℕ_discrete}
use sectric.Common.Run.{ok}
use sectric.Common.Loops.{update, update_self, update_apart}
use sectric.Hashing.Entry.{Entry, dummy_element}
use sectric.Hashing.Cuckoo.{no_id_from}
use sectric.Hashing.Cuckoo.Census.{entry_sum}
use sectric.Hashing.Agree.{Member}
use sectric.Block.Sse.{Block, make_block, zero_block}
use sectric.Oprf.{xor_block}
use sectric.Psi.{element_value}
use sectric.Psi.Rounds.{Increasing, weight}
use sectric.Psi.Total.{total}
use sectric.Psi.Rows.{Distinct}
use sectric.Psi.Parties.{unmask_results, place_blocks}

abbrev pub block_of : Entry → Block
block_of e = make_block e.current_function_id e.value

abbrev pub occupied_bins : ℕ → List Entry → List ℕ
occupied_bins i [] = []
occupied_bins i (e ∷ es) =
    let rest = occupied_bins (suc i) es in if e.value == dummy_element then rest else i ∷ rest

abbrev pub occupied_blocks : List Entry → List Block
occupied_blocks [] = []
occupied_blocks (e ∷ es) =
    let rest = occupied_blocks es in if e.value == dummy_element then rest else block_of e ∷ rest

pub no_id_from_lem :
    (es : List Entry) (i : ℕ)
    → no_id_from (length es) i es ≡ ok (occupied_bins i es, occupied_blocks es)
unfolding no_id_from
no_id_from_lem [] i = refl
no_id_from_lem (e ∷ es) i = elim (Bool-cases (e.value == dummy_element)) [
  | inl empty ↦ rw (no_id_from_lem es (suc i), empty) refl
  | inr full ↦ rw (no_id_from_lem es (suc i), full) refl
]

pub unmask_results-map :
    (past : Block) (d f : Block → Block) (ks pad : List Block)
    → unmask_results past (map d ks) (map f ks ++ pad) ≡ map (λ k. xor_block (d k) (f k)) ks
unfolding unmask_results
unmask_results-map past d f [] pad = refl
unmask_results-map past d f (k ∷ ks) pad =
    ap (λ (xs : List Block). xor_block (d k) (f k) ∷ xs) (unmask_results-map past d f ks pad)

module _ (g : Block → Block) where
  place_blocks-early :
      (es : List Entry) (i b : ℕ) (a : ℕ → Block)
      → b < i
      → place_blocks (occupied_bins i es) (map g (occupied_blocks es)) a b ≡ a b
  unfolding place_blocks
  place_blocks-early [] i b a h = refl
  place_blocks-early (e ∷ es) i b a h = elim (Bool-cases (e.value == dummy_element)) [
    | inl empty ↦ rw empty (place_blocks-early es (suc i) b a (omega arith))
    | inr full ↦
        rw full (
          place_blocks-early es (suc i) b _ (omega arith) ∙ update_apart a i b _ (λ e. omega arith))
  ]

  pub place_blocks-at :
      (es : List Entry) (i k : ℕ) (e : Entry) (a : ℕ → Block)
      → get_elem? es k ≡ some e
      → e.value ≢ dummy_element
      → place_blocks (occupied_bins i es) (map g (occupied_blocks es)) a (i + k) ≡ g (block_of e)
  unfolding place_blocks
  place_blocks-at [] i k e a at_k real = cc
  place_blocks-at (x ∷ es) i zero e a at_k real =
      let same : x ≡ e = cc in
      let full : (x.value == dummy_element) ≡ false = ground (arith, same) in
      rw (add-zero i, full)
        (place_blocks-early es (suc i) i _ (omega arith)
          ∙ update_self a i _
          ∙ ap (λ y. g (block_of y)) same)
  place_blocks-at (x ∷ es) i (suc k) e a at_k real =
      let shift : i + suc k ≡ suc i + k = omega arith in
      elim (Bool-cases (x.value == dummy_element)) [
        | inl empty ↦ rw (shift, empty) (place_blocks-at es (suc i) k e a at_k real)
        | inr full ↦ rw (shift, full) (place_blocks-at es (suc i) k e _ at_k real)
      ]

update_either :
    (P : Block → Type 0) (a : ℕ → Block) (x i : ℕ) (v : Block)
    → P v
    → ((j : ℕ) → P (a j))
    → P (update a x v i)
update_either P a x i v pv w = elim (ℕ_discrete x i) [
  | yes same ↦ subst (λ j. P (update a x v j)) same (subst P (sym (update_self a x v)) pv)
  | no apart ↦ subst P (sym (update_apart a x i v apart)) (w i)
]

-- What holds of all blocks that are placed, and of those that were there, holds of all places.
pub place_blocks-all :
    (P : Block → Type 0) (idxs : List ℕ) (blocks : List Block) (a : ℕ → Block)
    → ((b : Block) → Member b blocks → P b)
    → P zero_block
    → ((j : ℕ) → P (a j))
    → (j : ℕ) → P (place_blocks idxs blocks a j)
unfolding place_blocks
place_blocks-all P [] blocks a h z w j = w j
place_blocks-all P (x ∷ idxs) [] a h z w j =
    place_blocks-all P idxs [] (update a x zero_block) h z
      (λ i. update_either P a x i zero_block z w) j
place_blocks-all P (x ∷ idxs) (b ∷ blocks) a h z w j =
    place_blocks-all P idxs blocks (update a x b) (λ c m. h c (inr m)) z
      (λ i. update_either P a x i b (h b (inl refl)) w) j

module _ (vec : List ℕ) where
  weight_early :
      (es : List Entry) (i b : ℕ)
      → b < i
      → weight vec b (occupied_bins i es) (occupied_blocks es) ≡ 0
  weight_early [] i b h = refl
  weight_early (e ∷ es) i b h = elim (Bool-cases (e.value == dummy_element)) [
    | inl empty ↦ rw empty (weight_early es (suc i) b (omega arith))
    | inr full ↦
        let apart : (b == i) ≡ false = ground arith in
        rw full (rw apart (weight_early es (suc i) b (omega arith)))
  ]

  pub weight-at :
      (es : List Entry) (i k : ℕ) (e : Entry)
      → get_elem? es k ≡ some e
      → weight vec (i + k) (occupied_bins i es) (occupied_blocks es)
        ≡ (if e.value == dummy_element then 0 else element_value vec e.value)
  weight-at [] i k e at_k = cc
  weight-at (x ∷ es) i zero e at_k =
      let same : x ≡ e = cc in
      let here : (i == i) ≡ true = ground arith in
      subst
        (λ (y : Entry).
          weight vec (i + 0) (occupied_bins i (x ∷ es)) (occupied_blocks (x ∷ es))
          ≡ (if y.value == dummy_element then 0 else element_value vec y.value))
        same
        (rw (add-zero i) (elim (Bool-cases (x.value == dummy_element)) [
          | inl empty ↦ rw empty (weight_early es (suc i) i (omega arith))
          | inr full ↦ rw full (rw here refl)
        ]))
  weight-at (x ∷ es) i (suc k) e at_k =
      let shift : i + suc k ≡ suc i + k = omega arith in
      let apart : (suc i + k == i) ≡ false = ground arith in
      elim (Bool-cases (x.value == dummy_element)) [
        | inl empty ↦ rw (shift, empty) (weight-at es (suc i) k e at_k)
        | inr full ↦ rw (shift, full) (rw apart (weight-at es (suc i) k e at_k))
      ]

total_front : (n : ℕ) (h : ℕ → ℕ) → total (suc n) h ≡ h 0 + total n (λ k. h (suc k))
total_front zero h = omega arith
total_front (suc n) h = omega (arith, total_front n h)

-- A sum over the bins, entry by entry.
pub total-entry_sum :
    (w : ℕ → ℕ) (es : List Entry) (h : ℕ → ℕ)
    → ((k : ℕ) (e : Entry)
        → get_elem? es k ≡ some e
        → h k ≡ (if e.value == dummy_element then 0 else w e.value))
    → total (length es) h ≡ entry_sum w es
total-entry_sum w [] h same = refl
total-entry_sum w (e ∷ es) h same =
    total_front (length es) h
    ∙ ap₂ (λ (x y : ℕ). x + y) (same 0 e refl)
        (total-entry_sum w es (λ k. h (suc k)) (λ k f at_k. same (suc k) f at_k))

-- The entry whose block this is.
pub occupied_of_Member :
    (es : List Entry) (k : Block)
    → Member k (occupied_blocks es)
    → (b : ℕ) × (e : Entry) × (get_elem? es b ≡ some e)
      × (e.value ≢ dummy_element)
      × (k ≡ block_of e)
occupied_of_Member [] k m = absurd m
occupied_of_Member (e ∷ es) k m = elim (Bool-cases (e.value == dummy_element)) [
  | inl empty ↦
      let (b, f, at_b, real, same) = occupied_of_Member es k (rw empty at m) in
      (suc b, f, at_b, real, same)
  | inr full ↦ elim (rw full at m) [
    | inl here ↦ (0, e, refl, λ d. ground arith, here)
    | inr there ↦
        let (b, f, at_b, real, same) = occupied_of_Member es k there in (suc b, f, at_b, real, same)
  ]
]

-- Blocks that stand in the bins that they name are distinct.
pub occupied_blocks-Distinct :
    (bin_of : Block → ℕ) (es : List Entry) (i : ℕ)
    → ((b : ℕ) (e : Entry)
        → get_elem? es b ≡ some e
        → e.value ≢ dummy_element
        → bin_of (block_of e) ≡ i + b)
    → Distinct (occupied_blocks es)
occupied_blocks-Distinct bin_of [] i h = tt
occupied_blocks-Distinct bin_of (e ∷ es) i h =
    let rest =
      occupied_blocks-Distinct bin_of es (suc i)
        (λ b f at_b real. h (suc b) f at_b real ∙ omega arith) in
    elim (Bool-cases (e.value == dummy_element)) [
      | inl empty ↦ rw empty rest
      | inr full ↦ rw full (
        λ m.
            let (b, f, at_b, real, same) = occupied_of_Member es (block_of e) m in
            let own = h 0 e refl (λ d. ground arith) in
            let other = h (suc b) f at_b real in
            let equal = ap bin_of same in absurd (omega (arith, own, other, equal)),
        rest,
      )
    ]

pub occupied_bins-Increasing :
    (es : List Entry) (i j : ℕ) → j ≤ i → Increasing j (occupied_bins i es)
occupied_bins-Increasing [] i j h = tt
occupied_bins-Increasing (e ∷ es) i j h = elim (Bool-cases (e.value == dummy_element)) [
  | inl empty ↦ rw empty (occupied_bins-Increasing es (suc i) j (omega arith))
  | inr full ↦ rw full (h, occupied_bins-Increasing es (suc i) (suc i) (omega arith))
]

pub occupied_block :
    (es : List Entry) (b : ℕ) (e : Entry)
    → get_elem? es b ≡ some e
    → e.value ≢ dummy_element
    → Member (block_of e) (occupied_blocks es)
occupied_block [] b e at_b real = cc
occupied_block (x ∷ es) zero e at_b real =
    let same : x ≡ e = cc in
    let full : (x.value == dummy_element) ≡ false = ground (arith, same) in
    rw full (inl (ap block_of (sym same)))
occupied_block (x ∷ es) (suc b) e at_b real = elim (Bool-cases (x.value == dummy_element)) [
  | inl empty ↦ rw empty (occupied_block es b e at_b real)
  | inr full ↦ rw full (inr (occupied_block es b e at_b real))
]
