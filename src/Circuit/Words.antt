-- ===== src/Circuit/Words.antt =====
-- The words that the client of `run_circuit_psi` in triangle_counting/functionalities.cpp opens for
-- the keys of its bins.
use sectric.Common.{
  ℕ, ◌+◌, ◌*◌, ◌<◌, ◌≡◌, ◌≢◌, sym, ap, subst, ◌∙◌, List, [], length, get_or, get_elem?,
  get_elem?-get_or, some, bit_xor, arith,
}
use native.Mathlib.Nat.{zero-add}
use sectric.Common.Run.{Run, ok}
use sectric.Common.Fill.{fill2-hit}
use sectric.Common.Places.{row_unique}
use sectric.Block.Sse.{Block}
use sectric.Hashing.Agree.{Member}
use sectric.Hashing.Entry.{dummy_element}
use sectric.Hashing.Cuckoo
use sectric.Hashing.Cuckoo.{CuckooTable}
use sectric.Hashing.Cuckoo.Place.{bin}
use sectric.Hashing.Cuckoo.Elements.{MapsElements, IsMapped-table}
use sectric.Psi.Rows.{Distinct}
use sectric.Circuit.{no_places, record_rows, filter_inputs, garble, opened_values}
use sectric.Circuit.Places.{Filled, garble_lem, get_elem?_of_Member}
use sectric.Circuit.Hint.{IsOprf, opened_word, hint_lem}

module _ (prng : Block → ℕ → ℕ) (ot_receiver : List ℕ → ℕ → Block)
    (hash_to_position : ℕ → ℕ → List ℕ) (ffuns nbins fbins : ℕ) (cells keys : List ℕ)
    (width : length keys ≡ nbins) where
  -- The word for bin `b` and function `f`, from the cells of the filter.
  abbrev pub word : ℕ → ℕ → ℕ
  word b f =
      opened_word prng ot_receiver hash_to_position ffuns fbins cells keys b (get_or keys b 0) f

  pub opened_values_at :
      (addresses memory : ℕ → ℕ) (b f : ℕ)
      → ((k v j : ℕ)
          → get_elem? keys k ≡ some v
          → j < ffuns
          → addresses ((0 + k) * ffuns + j) ≡ bin hash_to_position ffuns fbins v j)
      → b < nbins
      → f < ffuns
      → opened_values prng nbins ffuns
          (λ a. get_or cells a 0)
          addresses
          (ot_receiver keys)
          memory
          (b * ffuns + f)
        ≡ word b f
  unfolding opened_values
  opened_values_at addresses memory b f at hb hf =
      let place : (0 + b) * ffuns + f ≡ b * ffuns + f =
        ap (λ (x : ℕ). x * ffuns + f) (zero-add b) in
      let address : addresses (b * ffuns + f)
          ≡ bin hash_to_position ffuns fbins (get_or keys b 0) f =
        ap addresses (sym place)
        ∙ at b (get_or keys b 0) f (get_elem?-get_or keys b 0 (omega (arith, width, hb))) hf in
      fill2-hit nbins ffuns (λ i j. i * ffuns + j) _ (λ i j j' h h' e. omega (arith, e))
        (λ i i' j j' hi hi' h h' e. row_unique i i' j j' ffuns h h' e) memory b f hb hf
      ∙ ap (λ a. bit_xor (get_or cells a 0) (prng (ot_receiver keys b) f)) address

  module _ (ot_sender : List (List ℕ) → ℕ → ℕ → Block) (oprf : IsOprf ot_receiver ot_sender)
      (lengths : (v : ℕ) → length (hash_to_position ffuns v) ≡ ffuns) (some_bin : 0 < fbins)
      (some_function : 0 < ffuns) (unset : ℕ) (map_elements : CuckooTable → Run CuckooTable)
      (maps : MapsElements hash_to_position unset map_elements) (contents : ℕ → ℕ)
      (rows : List (List ℕ)) (rows_width : length rows ≡ nbins)
      (distinct : Distinct (filter_inputs rows)) (hint : CuckooTable)
      (run : map_elements (Cuckoo.insert_all (Cuckoo.new fbins ffuns) (filter_inputs rows))
        ≡ ok hint)
      (no_stash : hint.stash ≡ []) where
    -- A key of the server's row is opened to the server's word.
    pub found_word :
        (b : ℕ)
        → Filled prng contents (ot_sender rows) (record_rows 0 rows no_places) hint.hash_table cells
        → b < nbins
        → get_or keys b 0 ≢ dummy_element
        → Member (get_or keys b 0) (get_or rows b [])
        → (f : ℕ) × (f < ffuns) × (word b f ≡ contents b)
    found_word b filled h real there =
        let (t, elements, made) =
          IsMapped-table hash_to_position ffuns fbins lengths some_bin some_function unset
            map_elements (filter_inputs rows) hint maps run in
        let (j, at_j) = get_elem?_of_Member (get_or rows b []) (get_or keys b 0) there in
        hint_lem prng ot_receiver ot_sender oprf hash_to_position ffuns fbins lengths some_bin
          some_function contents rows distinct t hint elements made no_stash b j (get_or keys b 0)
          (get_or rows b []) keys cells filled (get_elem?-get_or keys b 0 (omega (arith, width, h)))
          (get_elem?-get_or rows b [] (omega (arith, rows_width, h))) at_j real

    -- The cells that the server's loop makes.
    pub garble-Filled :
        (dummies : ℕ → ℕ)
        → garble prng contents
            (ot_sender rows)
            (record_rows 0 rows no_places)
            fbins
            hint.hash_table
            dummies
          ≡ ok cells
        → Filled prng contents (ot_sender rows) (record_rows 0 rows no_places) hint.hash_table cells
    garble-Filled dummies garbled =
        let (t, elements, made) =
          IsMapped-table hash_to_position ffuns fbins lengths some_bin some_function unset
            map_elements (filter_inputs rows) hint maps run in
        let (cells', garbled', filled') =
          garble_lem prng contents (ot_sender rows) (record_rows 0 rows no_places) fbins
            hint.hash_table dummies made.ready.width in
        let same : cells' ≡ cells = cc in
        subst
          (λ c.
            Filled prng contents (ot_sender rows) (record_rows 0 rows no_places) hint.hash_table c)
          same filled'
