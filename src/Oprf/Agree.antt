-- ===== src/Oprf/Agree.antt =====
-- The client's and the server's values of the function in debug_files/vole_oprf.hpp.
use sectric.Common.{
  ℕ, zero, suc, ◌-◌, ◌<◌, ◌≤◌, ◌≡◌, false, if◌then◌else◌, length-append, refl, sym, ap, ap₂, subst,
  ◌∙◌, true, ltb, inl, inr, List, [], ◌∷◌, ◌++◌, map, length, get_or, replicate, length-replicate,
  arith,
}
use mathlib.Core.List.{append-nil}
use sectric.Common.Run.{Run, ok, fault, out_of_range, Returns}
use sectric.Block.Sse.{Block, IsBlock, zero_block}
use sectric.Hashing.Agree.{Member}
use sectric.Graph.RoundTrip.{AreBlocks}
use sectric.Oprf.{
  xor_block, tabulate, combine_in_place, byte_to_block, decode_all, client1, server1, evaluate1,
}
use sectric.Oprf.Xor.{xor_block_self, xor_block-zero, xor_block_swap, xor_block-IsBlock}
use sectric.Oprf.Loop.{combine_in_place_lem}
use sectric.Oprf.Bytes.{byte_to_block-block_to_byte}

get_or-tabulate : (n : ℕ) (a : ℕ → Block) (j : ℕ) → j < n → get_or (tabulate n a) j zero_block ≡ a j
get_or-tabulate zero a j h = elim h [ ]
get_or-tabulate (suc n) a zero h = refl
get_or-tabulate (suc n) a (suc j) h = get_or-tabulate n (λ i. a (suc i)) j (omega arith)

tabulate-AreBlocks :
    (n : ℕ) (a : ℕ → Block) → ((j : ℕ) → j < n → IsBlock (a j)) → AreBlocks (tabulate n a)
tabulate-AreBlocks zero a h = tt
tabulate-AreBlocks (suc n) a h =
    (h 0 (omega arith), tabulate-AreBlocks n (λ i. a (suc i)) (λ j l. h (suc j) (omega arith)))

map-cong :
    (f g : Block → Block) (xs : List Block)
    → ((x : Block) → Member x xs → f x ≡ g x)
    → map f xs ≡ map g xs
map-cong f g [] h = refl
map-cong f g (x ∷ xs) h =
    ap₂ (λ y (ys : List Block). y ∷ ys) (h x (inl refl)) (map-cong f g xs (λ y m. h y (inr m)))

-- What the program relies on: the store decodes a table of `size` blocks linearly, and the field's
-- product distributes over its sum and has 128 bits.
pub record IsLinear {Seed : Type 0} (size : ℕ) (decode : Seed → (ℕ → Block) → Block → Block)
    (mul : Block → Block → Block) : Type 0 where
  pub decode_first :
      (s : Seed) (t u : ℕ → Block) (x : Block)
      → ((j : ℕ) → j < size → t j ≡ u j)
      → decode s t x ≡ decode s u x
  pub decode_sum :
      (s : Seed) (t u : ℕ → Block) (x : Block)
      → decode s (λ j. xor_block (t j) (u j)) x ≡ xor_block (decode s t x) (decode s u x)
  pub decode_scaled :
      (s : Seed) (d : Block) (t : ℕ → Block) (x : Block)
      → decode s (λ j. mul d (t j)) x ≡ mul d (decode s t x)
  pub decode-IsBlock :
      (s : Seed) (t : ℕ → Block) (x : Block)
      → ((j : ℕ) → j < size → IsBlock (t j))
      → IsBlock (decode s t x)
  pub mul_sum : (d a b : Block) → mul d (xor_block a b) ≡ xor_block (mul d a) (mul d b)
  pub mul-IsBlock : (d a : Block) → IsBlock (mul d a)

-- The two parties' parts of the correlation, from `VOLE`.
pub record AreCorrelated (size : ℕ) (mul : Block → Block → Block) (delta : Block)
    (a b c : ℕ → Block) : Type 0 where
  pub correlated : (j : ℕ) → j < size → c j ≡ xor_block (b j) (mul delta (a j))
  pub parts-IsBlock : (j : ℕ) → j < size → IsBlock (b j)

module _ {Seed : Type 0} (set_seed : Block → Seed)
    (solve : Seed → List Block → List Block → ℕ → Block)
    (decode : Seed → (ℕ → Block) → Block → Block) (mul : Block → Block → Block) (size : ℕ)
    (linear : IsLinear size decode mul) (delta seed_r : Block) (a b c : ℕ → Block)
    (parts : AreCorrelated size mul delta a b c) (vec_x : List Block) (item_num : ℕ) where
  abbrev seed : Seed
  seed = set_seed seed_r

  abbrev solved : ℕ → Block
  solved = solve seed vec_x (replicate item_num zero_block)

  -- The server's key when it runs with this client.
  abbrev pub shared_key : List ℕ
  shared_key =
      server1 set_seed solve decode mul size delta b
        (client1 set_seed solve decode mul vec_x item_num size seed_r a c).0

  -- The key as the table that is decoded.
  abbrev pub key_table : ℕ → Block
  key_table j = get_or (byte_to_block shared_key) j zero_block

  mul_zero : mul delta zero_block ≡ zero_block
  mul_zero =
      ap (mul delta) (sym (xor_block_self zero_block))
      ∙ linear.mul_sum delta zero_block zero_block
      ∙ xor_block_self (mul delta zero_block)

  server_entry : (ℕ → Block) → ℕ → Block
  server_entry p j =
      combine_in_place (λ k q. xor_block k (mul delta q)) (combine_in_place xor_block a size p) size
        b j

  first_round :
      (j : ℕ) → j < size → combine_in_place xor_block a size solved j ≡ xor_block (solved j) (a j)
  first_round j h =
      let inside : ltb j size ≡ true = ground (arith, h) in
      combine_in_place_lem xor_block a solved size j ∙ rw inside refl

  second_round :
      (j : ℕ)
      → j < size
      → server_entry solved j
        ≡ xor_block (b j) (mul delta (combine_in_place xor_block a size solved j))
  unfolding server_entry
  second_round j h =
      let sent = combine_in_place xor_block a size solved in
      let inside : ltb j size ≡ true = ground (arith, h) in
      combine_in_place_lem (λ k q. xor_block k (mul delta q)) sent b size j ∙ rw inside refl

  server_entry_lem :
      (j : ℕ) → j < size → server_entry solved j ≡ xor_block (c j) (mul delta (solved j))
  server_entry_lem j h =
      second_round j h
      ∙ ap (λ x. xor_block (b j) (mul delta x)) (first_round j h)
      ∙ ap (xor_block (b j)) (linear.mul_sum delta (solved j) (a j))
      ∙ xor_block_swap (b j) (mul delta (solved j)) (mul delta (a j))
      ∙ ap (λ x. xor_block x (mul delta (solved j))) (sym (parts.correlated j h))

  entry-IsBlock : (j : ℕ) → j < size → IsBlock (server_entry solved j)
  entry-IsBlock j h =
      subst IsBlock (sym (second_round j h))
        (xor_block-IsBlock (b j) _ (parts.parts-IsBlock j h) (linear.mul-IsBlock delta _))

  key_table_entry : (j : ℕ) → j < size → key_table j ≡ server_entry solved j
  unfolding client1 server1 combine_in_place server_entry
  key_table_entry j h =
      ap (λ xs. get_or xs j zero_block)
        (byte_to_block-block_to_byte (tabulate size (server_entry solved))
          (tabulate-AreBlocks size (server_entry solved) entry-IsBlock))
      ∙ get_or-tabulate size (server_entry solved) j h

  key_table_lem : (j : ℕ) → j < size → key_table j ≡ xor_block (c j) (mul delta (solved j))
  key_table_lem j h = key_table_entry j h ∙ server_entry_lem j h

  decoded_key :
      (y : Block)
      → decode seed key_table y ≡ xor_block (decode seed c y) (mul delta (decode seed solved y))
  decoded_key y =
      linear.decode_first seed key_table (λ j. xor_block (c j) (mul delta (solved j))) y
        key_table_lem
      ∙ linear.decode_sum seed c (λ j. mul delta (solved j)) y
      ∙ ap (xor_block (decode seed c y)) (linear.decode_scaled seed delta solved y)

  -- The values of `count` keys in a vector of `item_num` places.
  abbrev outputs : ℕ → ℕ → List Block → Run (List Block)
  outputs item_num count values =
      if ltb item_num count
      then fault out_of_range
      else ok (values ++ replicate (item_num - count) zero_block)

  -- With a store that decodes linearly, a product that distributes over the sum, a correlation
  -- that satisfies its contract, and a store that the client solved to zero at its inputs, the
  -- blocks that `Client1` has for its inputs are those that `Evaluate1` computes for them with
  -- the key that `Server1` made from the client's message; with more inputs than items both write
  -- beyond their vectors.
  pub evaluate1-client1 :
      ((x : Block) → Member x vec_x → decode seed solved x ≡ zero_block)
      → (client1 set_seed solve decode mul vec_x item_num size seed_r a c).1
        ≡ evaluate1 set_seed solve decode mul seed_r shared_key vec_x item_num
  unfolding client1 evaluate1 decode_all
  evaluate1-client1 zeros =
      ap (λ xs. outputs item_num (length vec_x) xs)
        (map-cong (decode seed c) (decode seed key_table) vec_x (λ x m. sym (
          decoded_key x
          ∙ ap (λ v. xor_block (decode seed c x) (mul delta v)) (zeros x m)
          ∙ ap (xor_block (decode seed c x)) mul_zero
          ∙ xor_block-zero (decode seed c x))))

  -- The function that the key stands for.
  abbrev pub evaluated : Block → Block
  evaluated = decode seed key_table

  pub evaluated-IsBlock : (x : Block) → IsBlock (evaluated x)
  evaluated-IsBlock x =
      linear.decode-IsBlock seed key_table x
        (λ j h. subst IsBlock (sym (key_table_entry j h)) (entry-IsBlock j h))

  pub evaluate1-map :
      (ys : List Block)
      → evaluate1 set_seed solve decode mul seed_r shared_key ys (length ys) ≡ ok (map evaluated ys)
  unfolding evaluate1 decode_all
  evaluate1-map ys =
      let enough : ltb (length ys) (length ys) ≡ false = ground arith in
      let none : length ys - length ys ≡ 0 = omega arith in
      rw (enough, none) (ap (λ (xs : List Block). ok xs) (append-nil (map evaluated ys)))

  pub client1-map :
      length vec_x ≤ item_num
      → ((x : Block) → Member x vec_x → decode seed solved x ≡ zero_block)
      → (client1 set_seed solve decode mul vec_x item_num size seed_r a c).1
        ≡ ok (map evaluated vec_x ++ replicate (item_num - length vec_x) zero_block)
  unfolding evaluate1 decode_all
  client1-map enough zeros =
      let places : ltb item_num (length vec_x) ≡ false = ground (arith, enough) in
      evaluate1-client1 zeros ∙ rw places refl

  -- Whatever the server evaluates, one place after the other.
  decoded_from :
      (vec_y : List Block) (pad : List Block) (i : ℕ)
      → i < length vec_y
      → let y = get_or vec_y i zero_block in
        get_or (map (decode seed key_table) vec_y ++ pad) i zero_block
        ≡ xor_block (decode seed c y) (mul delta (decode seed solved y))
  decoded_from [] pad i h = elim h [ ]
  decoded_from (y ∷ ys) pad zero h = decoded_key y
  decoded_from (y ∷ ys) pad (suc i) h = decoded_from ys pad i (omega arith)

  length-decoded : (vec_y : List Block) → length (map (decode seed key_table) vec_y) ≡ length vec_y
  length-decoded [] = refl
  length-decoded (y ∷ ys) = ap suc (length-decoded ys)

  -- Under the same conditions on the store, the product and the correlation, and for a vector that
  -- is not longer than the given number of items, `Evaluate1` ends with as many blocks as items,
  -- and at any place of the vector it gives the client's value of the block there plus the
  -- product of the server's secret and of what the client's store decodes to.
  pub evaluate1_lem :
      (count : ℕ) (vec_y : List Block) (i : ℕ)
      → length vec_y ≤ count
      → i < length vec_y
      → Returns (evaluate1 set_seed solve decode mul seed_r shared_key vec_y count) λ output.
        (length output ≡ count)
        × (let y = get_or vec_y i zero_block in
            get_or output i zero_block
            ≡ xor_block (decode seed c y) (mul delta (decode seed solved y)))
  unfolding evaluate1 decode_all
  evaluate1_lem count vec_y i enough h =
      let places : ltb count (length vec_y) ≡ false = ground (arith, enough) in
      let values = map (decode seed key_table) vec_y in
      let pad = replicate (count - length vec_y) zero_block in
      (
        values ++ pad,
        rw places refl,
        (
          omega (
            arith,
            enough,
            length-append values pad,
            length-decoded vec_y,
            length-replicate (count - length vec_y) zero_block,
          ),
          decoded_from vec_y pad i h,
        ),
      )
