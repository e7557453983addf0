-- ===== src/Graph/Edges.antt =====
-- The two sets of triangle_counting/triangle.h: the target's decoded blocks and the blocks of all
-- vertices have one in common for each edge between two of the target's neighbours.
use sectric.Common.{
  ℕ, zero, suc, ◌+◌, ◌-◌, ◌%◌, ◌^◌, ◌<◌, ◌≤◌, ◌≡◌, refl, sym, ap, subst, ◌∙◌, true, false, ◌==◌,
  ltb, List, [], ◌∷◌, ◌++◌, length, length-append, map, get_or, arith, Bool-cases, inl, inr, ==_iff,
}
use native.Mathlib.Decide.{ℕ_discrete}
use sectric.Common.Run.{ok, Returns}
use sectric.Block.Sse.{Block, zero_block}
use sectric.Net.{split_at}
use sectric.Hashing.Agree.{Member, Member-append_left, Member-append_right}
use sectric.Psi.Rows.{Distinct}
use sectric.Graph.{concatenate_vectors}
use sectric.Graph.Request.{
  find, start_server, flatten, padded_neighbors, neighbor, decoded_row, decoded_rows,
  neighbor_request, all_blocks,
}
use sectric.Graph.Served.{AreClients, message, start_server_lem}

index_of_Member :
    (xs : List Block) (b : Block)
    → Member b xs
    → (i : ℕ) × (i < length xs) × (get_or xs i zero_block ≡ b)
index_of_Member [] b m = absurd m
index_of_Member (x ∷ xs) b (inl same) = (0, omega arith, sym same)
index_of_Member (x ∷ xs) b (inr m) =
    let (i, h, at_i) = index_of_Member xs b m in (suc i, omega (arith, h), at_i)

pub get_or-Member : (xs : List Block) (i : ℕ) → i < length xs → Member (get_or xs i zero_block) xs
get_or-Member [] i h = elim h [ ]
get_or-Member (x ∷ xs) zero h = inl refl
get_or-Member (x ∷ xs) (suc i) h = inr (get_or-Member xs i (omega arith))

Member-map :
    (f : Block → Block) (xs : List Block) (b : Block) → Member b xs → Member (f b) (map f xs)
Member-map f [] b m = absurd m
Member-map f (x ∷ xs) b (inl same) = inl (ap f same)
Member-map f (x ∷ xs) b (inr m) = inr (Member-map f xs b m)

flatten-Member :
    (f : Block → List Block) (xs : List Block) (a z : Block)
    → Member a xs
    → Member z (f a)
    → Member z (flatten (map f xs))
unfolding flatten
flatten-Member f [] a z m h = absurd m
flatten-Member f (x ∷ xs) a z (inl same) h =
    Member-append_left z (f x) _ (subst (λ y. Member z (f y)) same h)
flatten-Member f (x ∷ xs) a z (inr m) h =
    Member-append_right z (f x) _ (flatten-Member f xs a z m h)

length-map : {A B : Type 0} (f : A → B) (xs : List A) → length (map f xs) ≡ length xs
length-map f [] = refl
length-map f (x ∷ xs) = ap suc (length-map f xs)

length_of_Member : (xs : List Block) (b : Block) → Member b xs → 0 < length xs
length_of_Member [] b m = absurd m
length_of_Member (x ∷ xs) b m = omega arith

-- What the store promises: the value at the place of a key, where the keys are distinct and there
-- are as many values.
abbrev pub Decodes : (List Block → List Block → List Block) → (List Block → Block → Block) → Type 0
Decodes encode lookup =
    (keys values : List Block) (i : ℕ)
    → Distinct keys
    → length values ≡ length keys
    → i < length keys
    → lookup (encode keys values) (get_or keys i zero_block) ≡ get_or values i zero_block

module _ (prg : ℕ → ℕ → List Block) (draw : ℕ → List Block)
    (encode : List Block → List Block → List Block) (lookup : List Block → Block → Block)
    (max_degree : ℕ) (adjacent : ℕ → List Block) where
  -- The store that vertex `v` sends, and its message.
  abbrev pub store_of : ℕ → List Block
  store_of v =
      encode (padded_neighbors prg draw encode lookup max_degree (adjacent v)) (prg v max_degree)

  abbrev pub client_of : Block → ℕ × List Block
  client_of a = (a.low, store_of a.low)

  abbrev pub sent_by : List ℕ → Block → ℕ × List ℕ
  sent_by stale a = neighbor prg draw encode lookup max_degree stale a.low (adjacent a.low)

  find_store :
      (order : List Block) (a : Block)
      → Member a order
      → find (map client_of order) a.low ≡ store_of a.low
  unfolding find
  find_store [] a m = absurd m
  find_store (x ∷ order) a (inl same) =
      let here : (x.low == a.low) ≡ true =
        (==_iff x.low a.low).1 (ap (λ (b : Block). b.low) (sym same)) in
      rw here (ap (λ (b : Block). store_of b.low) (sym same))
  find_store (x ∷ order) a (inr m) = elim (Bool-cases (x.low == a.low)) [
    | inl here ↦
        let same : x.low ≡ a.low = (==_iff x.low a.low).0 here in rw here (ap store_of same)
    | inr other ↦ rw other (find_store order a m)
  ]

  all_blocks-Member :
      (n v : ℕ) (z : Block)
      → v < n
      → Member z (prg v max_degree)
      → Member z (all_blocks prg draw encode lookup max_degree n)
  unfolding all_blocks
  all_blocks-Member zero v z h m = elim h [ ]
  all_blocks-Member (suc n) v z h m = elim (ℕ_discrete v n) [
    | yes last ↦
        Member-append_right z _ (prg n max_degree) (subst (λ k. Member z (prg k max_degree)) last m)
    | no before ↦
        Member-append_left z _ (prg n max_degree)
          (all_blocks-Member n v z (omega (arith, h, before)) m)
  ]

  -- What a row holds, if it has a place for each neighbour.
  abbrev row_of : List Block → List Block → List Block
  row_of neighbors okvs =
      map (lookup okvs) neighbors ++ (split_at (length neighbors) (draw max_degree)).1

  decoded_rows_lem :
      (neighbors : List Block) (okvs_of : Block → List Block) (rest : List Block)
      → length neighbors ≤ max_degree
      → decoded_rows prg draw encode lookup max_degree neighbors okvs_of rest
        ≡ ok (map (λ a. row_of neighbors (okvs_of a)) rest)
  unfolding decoded_rows decoded_row
  decoded_rows_lem neighbors okvs_of [] h = refl
  decoded_rows_lem neighbors okvs_of (a ∷ rest) h =
      let places : ltb max_degree (length neighbors) ≡ false = ground (arith, h) in
      rw (places, decoded_rows_lem neighbors okvs_of rest h) refl

  messages_of :
      (stale : List ℕ) (order : List Block)
      → map (sent_by stale) order ≡ map (message stale) (map client_of order)
  unfolding neighbor
  messages_of stale [] = refl
  messages_of stale (a ∷ order) =
      ap (λ (xs : List (ℕ × List ℕ)). message stale (client_of a) ∷ xs) (messages_of stale order)

  module _ (draw_length : (n : ℕ) → length (draw n) ≡ n)
      (prg_length : (v n : ℕ) → length (prg v n) ≡ n) (few : max_degree < 2 ^ 64) where
    abbrev keys_of : ℕ → List Block
    keys_of v = padded_neighbors prg draw encode lookup max_degree (adjacent v)

    keys_of_lem :
        (v : ℕ)
        → length (adjacent v) ≤ max_degree
        → (length (keys_of v) ≡ max_degree)
          × ((b : Block) → Member b (adjacent v) → Member b (keys_of v))
    unfolding padded_neighbors concatenate_vectors
    keys_of_lem v h =
        let missing : (max_degree + 2 ^ 64 - length (adjacent v)) % 2 ^ 64
            ≡ max_degree - length (adjacent v) =
          omega (arith, few, h) in
        let more = max_degree - length (adjacent v) in
        elim (Bool-cases (ltb 0 more)) [
          | inl some ↦
              rw (missing, some)
                (
                  omega (arith, h, length-append (adjacent v) (draw more), draw_length more),
                  λ b m. Member-append_left b (adjacent v) (draw more) m,
                )
          | inr none ↦ rw (missing, none) (ground (arith, h), λ b m. m)
        ]

    decoded-Member :
        (v : ℕ) (b : Block)
        → Decodes encode lookup
        → length (adjacent v) ≤ max_degree
        → Distinct (keys_of v)
        → Member b (adjacent v)
        → Member (lookup (store_of v) b) (prg v max_degree)
    decoded-Member v b decodes h distinct m =
        let (w, kept) = keys_of_lem v h in
        let (i, inside, at_i) = index_of_Member (keys_of v) b (kept b m) in
        let value =
          decodes (keys_of v) (prg v max_degree) i distinct (prg_length v max_degree ∙ sym w)
            inside in
        subst (λ z. Member z (prg v max_degree)) (sym value ∙ ap (lookup (store_of v)) at_i)
          (get_or-Member (prg v max_degree) i (omega (arith, prg_length v max_degree, w, inside)))

    -- If all of the target's neighbours send the stores of their neighbour files, in any order,
    -- with identifiers that differ and vectors of blocks that fit, if the store gives each of
    -- distinct keys its value, and with at most the largest degree of neighbours of the target and
    -- of the first one, a degree of 64 bits, the request ends without a fault, and for two of the target's neighbours that are joined, the block
    -- that the first one's store gives for the second is in the target's result and among the
    -- blocks of all vertices.
    pub neighbor_request-Member :
        (size n : ℕ) (stale : List ℕ) (neighbors order : List Block) (a b : Block)
        → Decodes encode lookup
        → AreClients size (map client_of order)
        → length order ≡ length neighbors
        → ((c : Block) → Member c neighbors → Member c order)
        → length neighbors ≤ max_degree
        → length (adjacent a.low) ≤ max_degree
        → Distinct (keys_of a.low)
        → a.low < n
        → Member a neighbors
        → Member b neighbors
        → Member b (adjacent a.low)
        → Returns
            (neighbor_request prg draw encode lookup max_degree size neighbors
              (map (sent_by stale) order))
            λ result.
              Member (lookup (store_of a.low) b) result
              × Member (lookup (store_of a.low) b) (all_blocks prg draw encode lookup max_degree n)
    unfolding neighbor_request
    neighbor_request-Member size n stale neighbors order a b decodes clients count all few_rows
          degree distinct vertex of_a of_b edge =
        let z = lookup (store_of a.low) b in
        let data_map = map client_of order in
        let width : length data_map ≡ length neighbors = length-map client_of order ∙ count in
        let received : start_server (length neighbors) size (map (sent_by stale) order)
            ≡ ok data_map =
          ap (start_server (length neighbors) size) (messages_of stale order)
          ∙ ap (λ (k : ℕ). start_server k size (map (message stale) data_map)) (sym width)
          ∙ start_server_lem size stale data_map clients
              (omega (arith, width, length_of_Member neighbors a of_a)) in
        let row : Block → List Block = λ c. row_of neighbors (find data_map c.low) in
        let at_a : find data_map a.low ≡ store_of a.low = find_store order a (all a of_a) in
        (
          flatten (map row neighbors),
          rw (received, decoded_rows_lem neighbors (λ c. find data_map c.low) neighbors few_rows)
              refl,
          (
            flatten-Member row neighbors a z of_a (
                subst (λ (s : List Block). Member z (row_of neighbors s)) (sym at_a)
                  (Member-append_left z _ _
                    (Member-map (lookup (store_of a.low)) neighbors b of_b))),
            all_blocks-Member n a.low z vertex
                (decoded-Member a.low b decodes degree distinct edge),
          ),
        )
