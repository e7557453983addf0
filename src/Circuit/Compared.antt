-- ===== src/Circuit/Compared.antt =====
-- The shares that `run_circuit_psi` of triangle_counting/functionalities.cpp writes for `PSM2`.
use sectric.Common.{
  ℕ, zero, suc, ◌+◌, ◌*◌, ◌/◌, ◌%◌, ◌^◌, ◌<◌, ◌≤◌, ◌≡◌, ◌≢◌, refl, sym, ap, ap₂, subst, ◌∙◌, inl,
  inr, false, xor, ◌==◌, get_or, List, get_elem?, bit_xor, arith, some, Bool-cases, ==_iff,
}
use native.Mathlib.Nat.{zero-add}
use sectric.Common.Masks.{bit_xor_unmask, bit_xor_mask_apart}
use sectric.Common.Run.{Returns}
use sectric.Common.Fill.{fill1-hit, fill1-miss}
use sectric.Block.Sse.{Block, zero_block}
use sectric.Hashing.Agree.{Member}
use sectric.Psi.Shared.{is_member, Member-of_is_member}
use sectric.Equality.Leaf.{Transfer}
use sectric.Equality.Traverse.{Packing}
use sectric.Equality.Compare.Shares.{TransfersFor, HasTriples}
use sectric.Equality.Threads.{perform_equality_lem}
use sectric.Circuit.{PsiContext, num_cmps, s_const, c_const}
use sectric.Circuit.Hint.{IsOprf}
use sectric.Circuit.Sizes.{num_cmps_groups, num_cmps_above}
use sectric.Circuit.Table.{
  ts, bit_address, actual_contents, pad_words, tabulate, opprf_rows, TableDraws, compare_words,
}
use sectric.Circuit.Nonces.{Serves}
use sectric.Circuit.Opened.{bit_address-lt, Fits, Among, Opens, build_table_lem}

pub tabulate-get_elem? {ℓ} :
    {A : Type ℓ} (n : ℕ) (f : ℕ → A) (i : ℕ) → i < n → get_elem? (tabulate n f) i ≡ some (f i)
unfolding tabulate
tabulate-get_elem? zero f i h = absurd (omega (arith, h))
tabulate-get_elem? (suc n) f zero h = refl
tabulate-get_elem? (suc n) f (suc i) h = tabulate-get_elem? n (λ j. f (suc j)) i (omega (arith, h))

-- A member of a vector of so many values is one of them.
pub Member-tabulate :
    (n : ℕ) (f : ℕ → ℕ) (x : ℕ) → Member x (tabulate n f) → (j : ℕ) × (j < n) × (x ≡ f j)
unfolding tabulate
Member-tabulate zero f x m = absurd m
Member-tabulate (suc n) f x (inl same) = (0, omega arith, same)
Member-tabulate (suc n) f x (inr m) =
    let (j, h, same) = Member-tabulate n (λ j. f (suc j)) x m in (suc j, omega (arith, h), same)

pub tabulate-Member : (n : ℕ) (f : ℕ → ℕ) (x i : ℕ) → i < n → x ≡ f i → Member x (tabulate n f)
unfolding tabulate
tabulate-Member zero f x i h e = absurd (omega (arith, h))
tabulate-Member (suc n) f x zero h e = inl e
tabulate-Member (suc n) f x (suc i) h e =
    inr (tabulate-Member n (λ j. f (suc j)) x i (omega (arith, h)) e)

-- The padding lies behind the bins.
pad_words-bin :
    (nbins pad value : ℕ) (content : ℕ → ℕ) (b : ℕ)
    → b < nbins
    → pad_words nbins pad value content b ≡ content b
unfolding pad_words
pad_words-bin nbins pad value content b h =
    fill1-miss pad (λ i. nbins + i) _ (λ i j k k' e. omega (arith, e)) content b
      (λ i k e. absurd (omega (arith, e, h)))

==-differ : (x y : ℕ) → x ≢ y → (x == y) ≡ false
==-differ x y h = elim (Bool-cases (x == y)) [
  | inl same ↦ absurd (h ((==_iff x y).0 same))
  | inr apart ↦ apart
]

-- The values that the client opened for a bin.
abbrev pub bin_values : ℕ → (ℕ → ℕ) → ℕ → List ℕ
bin_values ffuns values b = tabulate ffuns (λ j. values (b * ffuns + j))

module _ (hash : ℕ → Block → ℕ) (ffuns : ℕ) (few : ffuns ≤ ts) (masks : ℕ → ℕ → Block)
    (beyond contents : ℕ → ℕ) where
  -- What the server opens in bin `b`.
  abbrev pub opened : ℕ → Block → Block → (ℕ → ℕ) → ℕ
  opened b mask nonce table = bit_xor mask.low (table (ts * b + bit_address hash mask nonce))

  opened-same :
      (b : ℕ) (mask nonce : Block) (table : ℕ → ℕ) (j : ℕ)
      → Opens hash ffuns few masks beyond contents b nonce table
      → j < ffuns
      → mask ≡ masks b j
      → opened b mask nonce table ≡ contents b
  opened-same b mask nonce table j opens h same =
      let place : ts * b + bit_address hash (masks b j) nonce
          ≡ b * ts + bit_address hash (masks b j) nonce =
        omega arith in
      ap (λ (m : Block). opened b m nonce table) same
      ∙ ap (bit_xor (masks b j).low) (ap table place ∙ opens.masked j h)
      ∙ bit_xor_unmask (masks b j).low (contents b)

  opened-apart :
      (l b : ℕ) (mask nonce : Block) (table : ℕ → ℕ)
      → Opens hash ffuns few masks beyond contents b nonce table
      → ((c : ℕ) → Among hash ffuns few masks beyond contents b c → mask.low % 2 ^ l ≢ c % 2 ^ l)
      → opened b mask nonce table % 2 ^ l ≢ contents b % 2 ^ l
  opened-apart l b mask nonce table opens apart same =
      let (c, cell, among) =
        opens.hidden (bit_address hash mask nonce) (bit_address-lt hash mask nonce) in
      let place : ts * b + bit_address hash mask nonce ≡ b * ts + bit_address hash mask nonce =
        omega arith in
      apart c among (
        bit_xor_mask_apart l mask.low c (contents b)
          (ap (λ (x : ℕ). bit_xor mask.low x % 2 ^ l) (sym (ap table place ∙ cell)) ∙ same))

  actual_contents-bin :
      (nbins : ℕ) (server : ℕ → Block) (nonces : List Block) (table memory : ℕ → ℕ) (b : ℕ)
      → b < nbins
      → actual_contents hash nbins server nonces table memory b
        ≡ opened b (server b) (get_or nonces b zero_block) table
  unfolding actual_contents
  actual_contents-bin nbins server nonces table memory b h =
      fill1-hit nbins (λ i. i) _ (λ i j k k' e. e) memory b h

module _ (ot_receiver : List ℕ → ℕ → Block) (ot_sender : List (List ℕ) → ℕ → ℕ → Block)
    (oprf : IsOprf ot_receiver ot_sender) (hash : ℕ → Block → ℕ) (p : Packing) (ot : Transfer)
    (c : PsiContext) (aligned : c.nbins % 4 ≡ 0) (positive : 0 < c.radix) (small : c.radix ≤ 8)
    (some_bit : 0 < c.bitlen) (short : c.bitlen ≤ 64) (few_bits : c.bitlen % c.radix ≤ 4)
    (contract : TransfersFor c.radix ot) (few : c.ffuns ≤ ts) (draws : TableDraws)
    (t0 : HasTriples draws.supply_0) (t1 : HasTriples draws.supply_1) (values : ℕ → ℕ) where
  abbrev table_masks : ℕ → ℕ → Block
  table_masks = ot_sender (opprf_rows c.nbins c.ffuns values)

  abbrev server_masks : ℕ → Block
  server_masks = ot_receiver (tabulate c.nbins draws.server_contents)

  -- No mask agrees with the server's by accident: if the client opened other values in a bin, the
  -- low bits of the server's mask differ from those of all masks in the bin's cells.
  abbrev pub MasksApart : Type 0
  MasksApart =
      (b m : ℕ)
      → b < c.nbins
      → is_member (draws.server_contents b) (bin_values c.ffuns values b) ≡ false
      → Among hash c.ffuns few table_masks draws.beyond draws.client_contents b m
      → (server_masks b).low % 2 ^ c.bitlen ≢ m % 2 ^ c.bitlen

  same_mask :
      (b j : ℕ)
      → b < c.nbins
      → j < c.ffuns
      → draws.server_contents b ≡ values (b * c.ffuns + j)
      → server_masks b ≡ table_masks b j
  same_mask b j hb hj same =
      oprf (tabulate c.nbins draws.server_contents) (opprf_rows c.nbins c.ffuns values)
        (bin_values c.ffuns values b) b j (draws.server_contents b)
        (tabulate-get_elem? c.nbins draws.server_contents b hb)
        (tabulate-get_elem? c.nbins (bin_values c.ffuns values) b hb)
        (tabulate-get_elem? c.ffuns (λ j. values (b * c.ffuns + j)) j hj ∙ ap some (sym same))

  opened-is_member :
      (b : ℕ) (nonce : Block) (table : ℕ → ℕ)
      → MasksApart
      → b < c.nbins
      → Opens hash c.ffuns few table_masks draws.beyond draws.client_contents b nonce table
      → (draws.client_contents b % 2 ^ c.bitlen
          == opened hash c.ffuns few table_masks draws.beyond draws.client_contents b
              (server_masks b)
              nonce
              table
            % 2 ^ c.bitlen)
        ≡ is_member (draws.server_contents b) (bin_values c.ffuns values b)
  opened-is_member b nonce table apart h opens =
      let key = draws.server_contents b in
      let row = bin_values c.ffuns values b in
      elim (Bool-cases (is_member key row)) [
        | inl there ↦
            let (j, few_j, same) =
              Member-tabulate c.ffuns (λ j. values (b * c.ffuns + j)) key
                (Member-of_is_member key row there) in
            let word =
              opened-same hash c.ffuns few table_masks draws.beyond draws.client_contents b
                (server_masks b) nonce table j opens few_j (same_mask b j h few_j same) in
            (==_iff _ _).1 (ap (λ (x : ℕ). x % 2 ^ c.bitlen) (sym word)) ∙ sym there
        | inr absent ↦
            let word =
              opened-apart hash c.ffuns few table_masks draws.beyond draws.client_contents c.bitlen
                b (server_masks b) nonce table opens (λ m among. apart b m h absent among) in
            ==-differ (draws.client_contents b % 2 ^ c.bitlen) _ (λ e. word (sym e)) ∙ sym absent
      ]

  -- For a number of bins that is a multiple of four, at most four hint functions, an allowed
  -- radix, correct transfers, triples and pseudorandom function, and nonces that serve all bins,
  -- both parties of `PSM2` end after the filter; if no mask agrees by accident, their shares of a
  -- bin add up to whether the server's word of the bin is among the values that the client opened
  -- for it.
  pub compare_words_lem :
      Serves
        (Fits hash c.ffuns few table_masks draws.beyond draws.client_contents)
        c.nbins
        0
        draws.nonces
      → MasksApart
      → Returns (compare_words ot_receiver ot_sender hash p ot c draws values) (λ z.
        (b : ℕ)
        → b < c.nbins
        → xor (z.0 b) (z.1 b) ≡ is_member (draws.server_contents b) (bin_values c.ffuns values b))
  unfolding compare_words
  compare_words_lem serves apart =
      let (r, run, (kept, opens)) =
        build_table_lem hash c.ffuns few table_masks draws.beyond draws.client_contents c.nbins 0
          draws.nonces draws.table_memory serves in
      let actual = actual_contents hash c.nbins server_masks r.0 r.1 draws.contents_memory in
      let (z, ends, shares) =
        perform_equality_lem p ot c.bitlen c.radix (num_cmps c.nbins) (num_cmps c.nbins / 8)
          (num_cmps_groups c.nbins aligned) positive small some_bit short few_bits contract
          draws.supply_0 draws.supply_1
          (pad_words c.nbins (3 * (c.nbins % 8)) c_const draws.client_contents)
          (pad_words c.nbins (c.nbins % 8) s_const actual) draws.shares_memory t0 t1 in
      (
        z,
        rw run ends,
        λ b h.
            shares b (num_cmps_above c.nbins b h)
            ∙ ap₂ (λ (x y : ℕ). x % 2 ^ c.bitlen == y % 2 ^ c.bitlen)
                (pad_words-bin c.nbins (3 * (c.nbins % 8)) c_const draws.client_contents b h)
                (pad_words-bin c.nbins (c.nbins % 8) s_const actual b h
                  ∙ actual_contents-bin hash c.ffuns few table_masks draws.beyond
                      draws.client_contents c.nbins server_masks r.0 r.1 draws.contents_memory b h)
            ∙ opened-is_member b (get_or r.0 b zero_block) r.1 apart h (
                subst
                  (λ k.
                    Opens hash c.ffuns few table_masks draws.beyond draws.client_contents k
                      (get_or r.0 b zero_block) r.1)
                  (zero-add b) (opens b h)),
      )
