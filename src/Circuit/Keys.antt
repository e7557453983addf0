-- ===== src/Circuit/Keys.antt =====
-- The keys of `run_circuit_psi` in triangle_counting/functionalities.cpp, an element and the
-- function that placed it in one number: those of the client's bins and of the server's rows.
use sectric.Common.{
  ℕ, zero, suc, ◌+◌, ◌<◌, ◌≤◌, ◌≡◌, ◌≢◌, refl, sym, ap, subst, ◌∙◌, inl, inr, true, ◌==◌, List, [],
  ◌∷◌, length, get_or, get_elem?, some, bit_xor, arith, Bool-cases, ==_iff,
}
use native.Mathlib.Decide.{ℕ_discrete}
use sectric.Common.Run.{Returns}
use sectric.Hashing.Agree.{Member, Member-append_left, Member-append_right, Member-append_cases}
use sectric.Hashing.Entry.{Entry, dummy_element}
use sectric.Hashing.Cuckoo.{raw_from}
use sectric.Hashing.Cuckoo.Place.{bin}
use sectric.Hashing.Simple.Rows.{keys_of, row_keys}
use sectric.Psi.Shared.{is_member, Member-of_is_member, is_member_of_Member}

-- What `AsRawVector` reads from a table of the right size.
abbrev pub KeysOf : List Entry → List ℕ → Type 0
KeysOf es keys =
    (b : ℕ) (e : Entry)
    → get_elem? es b ≡ some e
    → get_or keys b 0 ≡ bit_xor e.value e.current_function_id

pub raw_from_lem :
    (left : ℕ) (es : List Entry)
    → length es ≡ left
    → Returns (raw_from left es) (λ keys. (length keys ≡ left) × KeysOf es keys)
unfolding raw_from
raw_from_lem zero [] w = ([], refl, (refl, λ b e at. cc))
raw_from_lem zero (x ∷ es) w = absurd (omega (arith, w))
raw_from_lem (suc left) [] w = absurd (omega (arith, w))
raw_from_lem (suc left) (x ∷ es) w =
    let (keys, ends, (width, found)) = raw_from_lem left es (omega (arith, w)) in
    rw ends (_, refl, (ap suc width, first_or_rest x es keys found))
  where
    first_or_rest :
        (x : Entry) (es : List Entry) (keys : List ℕ)
        → KeysOf es keys
        → KeysOf (x ∷ es) (bit_xor x.value x.current_function_id ∷ keys)
    first_or_rest x es keys found zero e at =
        let same : x ≡ e = cc in ap (λ (y : Entry). bit_xor y.value y.current_function_id) same
    first_or_rest x es keys found (suc b) e at = found b e at

module _ (hash_to_position : ℕ → ℕ → List ℕ) (functions bins : ℕ) where
  keys_of-Member :
      (b x left i f : ℕ)
      → i ≤ f
      → f < i + left
      → bin hash_to_position functions bins x f ≡ b
      → Member (bit_xor x f) (keys_of hash_to_position functions bins b x left i)
  keys_of-Member b x zero i f low high e = absurd (omega arith)
  keys_of-Member b x (suc left) i f low high e = elim (ℕ_discrete i f) [
    | yes same ↦
        let test : (bin hash_to_position functions bins x i == b) ≡ true =
          (==_iff _ b).1 (ap (bin hash_to_position functions bins x) same ∙ e) in
        rw test (inl (ap (bit_xor x) (sym same)))
    | no other ↦
        Member-append_right _ _ _
          (keys_of-Member b x left (suc i) f (omega (arith, other, low)) (omega arith) e)
  ]

  keys_of-source :
      (b x key left i : ℕ)
      → Member key (keys_of hash_to_position functions bins b x left i)
      → (f : ℕ) × (f < i + left) × (key ≡ bit_xor x f)
  keys_of-source b x key zero i m = absurd m
  keys_of-source b x key (suc left) i m =
      let rest : Member key (keys_of hash_to_position functions bins b x left (suc i))
          → (f : ℕ) × (f < i + suc left) × (key ≡ bit_xor x f) =
        λ m'.
          let (f, bound, e) = keys_of-source b x key left (suc i) m' in
          (f, omega (arith, bound), e) in
      elim (Bool-cases (bin hash_to_position functions bins x i == b)) [
        | inr apart ↦ rest (rw apart at m)
        | inl named ↦ elim (rw named at m) [ inl e ↦ (i, omega arith, e) | inr later ↦ rest later ]
      ]

  -- An element of the server is in the row of each bin that a function names, under its key.
  pub row_keys-Member :
      (b x f : ℕ) (xs : List ℕ)
      → Member x xs
      → f < functions
      → bin hash_to_position functions bins x f ≡ b
      → Member (bit_xor x f) (row_keys hash_to_position functions bins b xs)
  row_keys-Member b x f [] m h e = absurd m
  row_keys-Member b x f (y ∷ xs) (inl same) h e = Member-append_left _ _ _ (
      subst (λ z. Member (bit_xor x f) (keys_of hash_to_position functions bins b z functions 0))
        same (keys_of-Member b x functions 0 f (omega arith) (omega arith) e))
  row_keys-Member b x f (y ∷ xs) (inr m) h e =
      Member-append_right _ (keys_of hash_to_position functions bins b y functions 0) _
        (row_keys-Member b x f xs m h e)

  -- A key of a row is that of an element of the server.
  pub row_keys-source :
      (b key : ℕ) (xs : List ℕ)
      → Member key (row_keys hash_to_position functions bins b xs)
      → (y : ℕ) × (f : ℕ) × Member y xs × (f < functions) × (key ≡ bit_xor y f)
  row_keys-source b key [] m = absurd m
  row_keys-source b key (x ∷ xs) m =
      elim (Member-append_cases key (keys_of hash_to_position functions bins b x functions 0)
        (row_keys hash_to_position functions bins b xs) m) [
          | inl here ↦
              let (f, bound, e) = keys_of-source b x key functions 0 here in
              (x, f, inl refl, omega (arith, bound), e)
          | inr there ↦
              let (y, f, m', bound, e) = row_keys-source b key xs there in (y, f, inr m', bound, e)
        ]

  -- No key of the server is the marker of empty bins, and a client's entry has the key of one of
  -- the server's elements only if it holds that element.
  pub record AreNamed (es : List Entry) (xs : List ℕ) : Type 0 where
    pub real : (y f : ℕ) → Member y xs → f < functions → bit_xor y f ≢ dummy_element
    pub no_dummy : ¬ Member dummy_element xs
    pub named :
        (b : ℕ) (e : Entry) (y f : ℕ)
        → get_elem? es b ≡ some e
        → Member y xs
        → f < functions
        → bit_xor e.value e.current_function_id ≡ bit_xor y f
        → e.value ≡ y

  -- The client's key of a bin is in the server's row exactly if the bin's element is the server's.
  pub key-is_member :
      (es : List Entry) (xs : List ℕ) (b : ℕ) (e : Entry)
      → AreNamed es xs
      → get_elem? es b ≡ some e
      → (e.value ≢ dummy_element
          → (e.current_function_id < functions)
            × (bin hash_to_position functions bins e.value e.current_function_id ≡ b))
      → is_member
          (bit_xor e.value e.current_function_id)
          (row_keys hash_to_position functions bins b xs)
        ≡ is_member e.value xs
  key-is_member es xs b e clear at_b home =
      let key = bit_xor e.value e.current_function_id in
      elim (Bool-cases (is_member e.value xs)) [
        | inl shared ↦
            let m = Member-of_is_member e.value xs shared in
            let (function, place) = home (λ d. clear.no_dummy (subst (λ v. Member v xs) d m)) in
            is_member_of_Member key _
              (row_keys-Member b e.value e.current_function_id xs m function place)
            ∙ sym shared
        | inr absent ↦
            elim (Bool-cases (is_member key (row_keys hash_to_position functions bins b xs))) [
              | inr none ↦ none ∙ sym absent
              | inl there ↦
                  let (y, f, m, bound, same) =
                    row_keys-source b key xs (Member-of_is_member key _ there) in
                  let own = clear.named b e y f at_b m bound same in
                  let present =
                    is_member_of_Member e.value xs (subst (λ v. Member v xs) (sym own) m) in
                  cc
            ]
      ]
