-- ===== src/Tests/Requests.antt =====
-- The requests of triangle_counting/triangle.h on a small graph.
use sectric.Common.{
  ℕ, zero, suc, ◌+◌, ◌≡◌, refl, sym, subst, ap, true, if◌then◌else◌, inl, inr, List, [], ◌∷◌,
  length, map, get_or, arith, Bool-cases,
}
use sectric.Common.Run.{ok, Returns}
use sectric.Block.Sse.{Block, make_block, zero_block}
use sectric.Hashing.Agree.{Member}
use sectric.Equality.Blocks.{block_equal}
use sectric.Psi.Rows.{Distinct}
use sectric.Graph.{concatenate_vectors}
use sectric.Graph.Request.{padded_neighbors, neighbor_request, all_blocks, start_server}
use sectric.Graph.Served.{AreClients, message, start_server_lem}
use sectric.Graph.Edges.{
  Decodes, get_or-Member, client_of, sent_by, store_of, neighbor_request-Member,
}
use sectric.Tests.Store.{interleave, block_equal_to}

abbrev search : List Block → Block → Block
search [] k = zero_block
search (x ∷ []) k = zero_block
search (x ∷ v ∷ store) k = let later = search store k in if block_equal x k then v else later

search-Decodes : Decodes interleave search
search-Decodes [] values i d w h = elim h [ ]
search-Decodes (k ∷ keys) [] i d w h = absurd (omega (arith, w))
search-Decodes (k ∷ keys) (v ∷ values) zero d w h =
    let same : block_equal k k ≡ true = ground arith in rw same refl
search-Decodes (k ∷ keys) (v ∷ values) (suc i) d w h =
    let key = get_or keys i zero_block in
    elim (Bool-cases (block_equal k key)) [
      | inl same ↦ absurd (
          d.0 (
            subst (λ x. Member x keys) (sym (block_equal_to k key same))
              (get_or-Member keys i (omega (arith, h)))))
      | inr apart ↦
          rw apart (search-Decodes keys values i d.1 (omega (arith, w)) (omega (arith, h)))
    ]

-- The blocks from a seed, and the ones that are drawn.
abbrev blocks_from : ℕ → ℕ → List Block
blocks_from high zero = []
blocks_from high (suc n) = make_block high n ∷ blocks_from high n

abbrev seeded : ℕ → ℕ → List Block
seeded v n = blocks_from (v + 1) n

abbrev drawn_blocks : ℕ → List Block
drawn_blocks n = blocks_from 90 n

length-blocks_from : (high n : ℕ) → length (blocks_from high n) ≡ n
length-blocks_from high zero = refl
length-blocks_from high (suc n) = ap suc (length-blocks_from high n)

-- Vertices 0 and 1 are joined, and both are the target's neighbours.
abbrev adjacent : ℕ → List Block
adjacent zero = make_block 0 1 ∷ []
adjacent (suc v) = make_block 0 0 ∷ []

abbrev neighbors : List Block
neighbors = make_block 0 0 ∷ make_block 0 1 ∷ []

-- The second neighbour's message comes first.
abbrev order : List Block
order = make_block 0 1 ∷ make_block 0 0 ∷ []

abbrev some_clients : List (ℕ × List Block)
some_clients = (7, make_block 1 2 ∷ []) ∷ (3, []) ∷ []

start_server_example : start_server 2 4 (map (message (5 ∷ [])) some_clients) ≡ ok some_clients
start_server_example =
    start_server_lem 4 (5 ∷ []) some_clients
      (
        omega arith,
        ((omega arith, omega arith), tt),
        omega arith,
        ((λ e. absurd (omega (arith, e))), tt),
        (omega arith, tt, omega arith, tt, tt),
      )
      (omega arith)

clients : AreClients 4 (map (client_of seeded drawn_blocks interleave search 2 adjacent) order)
unfolding padded_neighbors concatenate_vectors
clients = (
  omega arith,
  (
    (omega arith, omega arith),
    ((omega arith, omega arith), ((omega arith, omega arith), ((omega arith, omega arith), tt))),
  ),
  omega arith,
  ((λ e. absurd (omega (arith, e))), tt),
  (
    omega arith,
    (
      (omega arith, omega arith),
      ((omega arith, omega arith), ((omega arith, omega arith), ((omega arith, omega arith), tt))),
    ),
    omega arith,
    tt,
    tt,
  ),
)

distinct : Distinct (padded_neighbors seeded drawn_blocks interleave search 2 (adjacent 0))
unfolding padded_neighbors concatenate_vectors
distinct = (
  λ m. elim m [
    | inl e ↦ let high = ap (λ (b : Block). b.high) e in absurd (omega (arith, high))
    | inr none ↦ none
  ],
  (λ m. m, tt),
)

swapped : (c : Block) → Member c neighbors → Member c order
swapped c (inl e) = inr (inl e)
swapped c (inr (inl e)) = inl e
swapped c (inr (inr m)) = absurd m

neighbor_request_example :
    Returns
      (neighbor_request seeded drawn_blocks interleave search 2 4 neighbors
        (map (sent_by seeded drawn_blocks interleave search 2 adjacent []) order))
      λ result.
        Member
          (search (store_of seeded drawn_blocks interleave search 2 adjacent 0) (make_block 0 1))
          result
        × Member
            (search (store_of seeded drawn_blocks interleave search 2 adjacent 0) (make_block 0 1))
            (all_blocks seeded drawn_blocks interleave search 2 5)
neighbor_request_example =
    neighbor_request-Member seeded drawn_blocks interleave search 2 adjacent
      (λ n. length-blocks_from 90 n) (λ v n. length-blocks_from (v + 1) n) (omega arith) 4 5 []
      neighbors order (make_block 0 0) (make_block 0 1) search-Decodes clients refl swapped
      (omega arith) (omega arith) distinct (omega arith) (inl refl) (inr (inl refl)) (inl refl)
