-- ===== src/Circuit/Hint.antt =====
-- The hint of `run_circuit_psi` in triangle_counting/functionalities.cpp: what the server hides in
-- the garbled cuckoo filter is what the client opens.
use sectric.Common.{
  ℕ, suc, ◌+◌, ◌<◌, ◌≡◌, ◌≢◌, ap, ap₂, ◌∙◌, false, List, [], length, get_or, get_elem?, some,
  bit_xor, arith,
}
use native.Mathlib.Nat.{zero-add}
use sectric.Common.Bits.{bit_xor_cancel}
use sectric.Common.Loops.{for_each}
use sectric.Block.Sse.{Block}
use sectric.Hashing.Entry.{dummy_element, is_empty}
use sectric.Hashing.Cuckoo.{CuckooTable}
use sectric.Hashing.Cuckoo.Place.{bin}
use sectric.Hashing.Cuckoo.Mapped.{IsMapped}
use sectric.Hashing.Cuckoo.Find.{IsMapped-Found}
use sectric.Psi.Rows.{Distinct}
use sectric.Circuit.{HashLocMap, no_places, record_rows, filter_inputs, last_pad, garbled_cell}
use sectric.Circuit.Places.{
  Filled, Member-of_get_elem?, get_elem?_of_Member, filter_inputs-Member, record_rows-hit,
}

-- The pseudorandom function gives the receiver, for its key in a bin, what it gives the sender for
-- that key in the bin's row.
abbrev pub IsOprf : (List ℕ → ℕ → Block) → (List (List ℕ) → ℕ → ℕ → Block) → Type 0
IsOprf ot_receiver ot_sender =
    (keys : List ℕ) (rows : List (List ℕ)) (row : List ℕ) (b j key : ℕ)
    → get_elem? keys b ≡ some key
    → get_elem? rows b ≡ some row
    → get_elem? row j ≡ some key
    → ot_receiver keys b ≡ ot_sender rows b j

last_pad_lem : (prng : Block → ℕ → ℕ) (seed : Block) (f : ℕ) → last_pad prng seed f ≡ prng seed f
unfolding last_pad for_each
last_pad_lem prng seed f =
    let next : f + 1 ≡ suc f = omega arith in
    ap (λ n. for_each n (λ j (pad : ℕ). prng seed j) 0) next

-- The word that the client opens for bin `b` and its key with function `f`, from the filter's cells.
abbrev pub opened_word :
    (Block → ℕ → ℕ)
    → (List ℕ → ℕ → Block)
    → (ℕ → ℕ → List ℕ)
    → ℕ
    → ℕ
    → List ℕ
    → List ℕ
    → ℕ
    → ℕ
    → ℕ
    → ℕ
opened_word prng ot_receiver hash_to_position ffuns fbins cells keys b key f =
    bit_xor (get_or cells (bin hash_to_position ffuns fbins key f) 0) (prng (ot_receiver keys b) f)

module _ (prng : Block → ℕ → ℕ) (ot_receiver : List ℕ → ℕ → Block)
    (ot_sender : List (List ℕ) → ℕ → ℕ → Block) (oprf : IsOprf ot_receiver ot_sender)
    (hash_to_position : ℕ → ℕ → List ℕ) (ffuns fbins : ℕ)
    (lengths : (v : ℕ) → length (hash_to_position ffuns v) ≡ ffuns) (some_bin : 0 < fbins)
    (some_function : 0 < ffuns) (contents : ℕ → ℕ) (rows : List (List ℕ))
    (distinct : Distinct (filter_inputs rows)) (t hint : CuckooTable)
    (elements : t.elements ≡ filter_inputs rows)
    (made : IsMapped hash_to_position ffuns fbins lengths some_bin some_function t hint)
    (no_stash : hint.stash ≡ []) where
  -- Where a key of the rows stands in the hint's table.
  cell_of :
      (b j key : ℕ) (row keys cells : List ℕ)
      → Filled prng contents (ot_sender rows) (record_rows 0 rows no_places) hint.hash_table cells
      → get_elem? rows b ≡ some row
      → get_elem? row j ≡ some key
      → key ≢ dummy_element
      → (f : ℕ) × (f < ffuns)
        × (get_or cells (bin hash_to_position ffuns fbins key f) 0
            ≡ bit_xor (contents b) (prng (ot_sender rows b j) f))
  unfolding is_empty garbled_cell
  cell_of b j key row keys cells filled at_b at_j real =
      let (g, at_g) =
        get_elem?_of_Member (filter_inputs rows) key
          (filter_inputs-Member rows b row key at_b (Member-of_get_elem? row j key at_j)) in
      let (f, e, in_range, at_e, id, val, function) =
        IsMapped-Found hash_to_position ffuns fbins lengths some_bin some_function t hint made
          no_stash g key real (ap (λ xs. get_elem? xs g) elements ∙ at_g) in
      let full : is_empty e ≡ false = ground (arith, val, real) in
      let place : record_rows 0 rows no_places e.value ≡ record { bin = b; index = j } =
        ap (record_rows 0 rows no_places) val
        ∙ record_rows-hit 0 b j rows row no_places key distinct at_b at_j
        ∙ ap (λ n. record { bin = n; index = j }) (zero-add b) in
      let pad =
        ap
          (λ (hlm : HashLocMap).
            bit_xor (contents hlm.bin)
              (last_pad prng (ot_sender rows hlm.bin hlm.index) e.current_function_id))
          place in
      (
        f,
        in_range,
        filled (bin hash_to_position ffuns fbins key f) e at_e full
            ∙ pad
            ∙ ap (bit_xor (contents b)) (
                last_pad_lem prng (ot_sender rows b j) e.current_function_id
                ∙ ap (prng (ot_sender rows b j)) function),
      )

  -- When the keys of the server's rows are distinct and the hint's table, mapped from them, used
  -- no stash, a client's key that stands in the server's row of its bin and is not the marker of
  -- empty bins is opened to the server's random word of that bin by one of the hint functions.
  pub hint_lem :
      (b j key : ℕ) (row keys cells : List ℕ)
      → Filled prng contents (ot_sender rows) (record_rows 0 rows no_places) hint.hash_table cells
      → get_elem? keys b ≡ some key
      → get_elem? rows b ≡ some row
      → get_elem? row j ≡ some key
      → key ≢ dummy_element
      → (f : ℕ) × (f < ffuns)
        × (opened_word prng ot_receiver hash_to_position ffuns fbins cells keys b key f
            ≡ contents b)
  hint_lem b j key row keys cells filled mine at_b at_j real =
      let (f, in_range, cell) = cell_of b j key row keys cells filled at_b at_j real in
      (
        f,
        in_range,
        ap₂ bit_xor cell (ap (λ seed. prng seed f) (oprf keys rows row b j key mine at_b at_j))
            ∙ bit_xor_cancel (contents b) (prng (ot_sender rows b j) f),
      )
