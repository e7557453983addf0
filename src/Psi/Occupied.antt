-- ===== src/Psi/Occupied.antt =====
-- The occupied bins that `AsRawVectorNoID` of triangle_counting/cuckoo_hashing.cpp lists, in the
-- order that triangle_counting/circuit_psi.cpp relies on.
use sectric.Common.{
  ℕ, zero, suc, ◌+◌, ◌<◌, ◌≤◌, ◌≡◌, refl, inl, inr, ◌==◌, if◌then◌else◌, List, [], ◌∷◌, length,
  arith, Bool-cases,
}
use sectric.Common.Run.{Returns}
use sectric.Hashing.Entry.{Entry, dummy_element}
use sectric.Hashing.Cuckoo.{CuckooTable, no_id_from, as_raw_vector_no_id}
use sectric.Block.Sse.{Block, make_block}
use sectric.Psi.Rounds.{Increasing}

abbrev pub Below : ℕ → List ℕ → Type 0
Below n [] = Unit
Below n (x ∷ xs) = (x < n) × Below n xs

Increasing-suc : (i : ℕ) (xs : List ℕ) → Increasing (suc i) xs → Increasing i xs
Increasing-suc i [] h = tt
Increasing-suc i (x ∷ xs) h = (omega (arith, h.0), h.1)

-- How many entries hold an element.
abbrev pub occupied_count : List Entry → ℕ
occupied_count [] = 0
occupied_count (e ∷ es) = (if e.value == dummy_element then 0 else 1) + occupied_count es

abbrev pub Lists : ℕ → ℕ → List Entry → List ℕ × List Block → Type 0
Lists i n es r =
    Increasing i r.0
    × Below n r.0
    × (length r.0 ≡ occupied_count es)
    × (length r.1 ≡ occupied_count es)

no_id_from-Lists :
    (left i n : ℕ) (es : List Entry)
    → length es ≡ left
    → i + left ≤ n
    → Returns (no_id_from left i es) (Lists i n es)
unfolding no_id_from
no_id_from-Lists zero i n [] w h = (([], []), refl, (tt, tt, refl, refl))
no_id_from-Lists zero i n (e ∷ es) w h = absurd (omega (arith, w))
no_id_from-Lists (suc left) i n [] w h = absurd (omega (arith, w))
no_id_from-Lists (suc left) i n (e ∷ es) w h =
    let (r, run, m) = no_id_from-Lists left (suc i) n es (omega (arith, w)) (omega arith) in
    elim (Bool-cases (e.value == dummy_element)) [
      | inl empty ↦ (
        r,
        rw (run, empty) refl,
        (
          Increasing-suc i r.0 m.0,
          m.1,
          rw empty (omega (arith, m.2)),
          rw empty (omega (arith, m.3)),
        ),
      )
      | inr full ↦ (
        (i ∷ r.0, make_block e.current_function_id e.value ∷ r.1),
        rw (run, full) refl,
        (
          (omega arith, m.0),
          (omega arith, m.1),
          rw full (omega (arith, m.2)),
          rw full (omega (arith, m.3)),
        ),
      )
    ]

-- For a cuckoo table whose vector has as many entries as the table has bins, `AsRawVectorNoID`
-- ends without a fault; the bins that it lists increase and are numbers of bins, and there are as
-- many of them, and as many blocks, as there are entries with an element.
pub as_raw_vector_no_id-Lists :
    (t : CuckooTable)
    → length t.hash_table ≡ t.num_bins
    → Returns (as_raw_vector_no_id t) (Lists 0 t.num_bins t.hash_table)
unfolding as_raw_vector_no_id
as_raw_vector_no_id-Lists t w =
    no_id_from-Lists t.num_bins 0 t.num_bins t.hash_table w (omega arith)
