-- ===== src/Common/Run.antt =====
-- Code that can throw or be undefined: a run ends in a value or in a fault.
use mathlib.Core.Path.{◌≡◌, refl}
use mathlib.Core.List.{List}
use mathlib.Core.Option.{Option, none, some}
use Prim.Native.Nat.{ℕ, zero, suc, ◌%◌}
use sectric.Common.Lists.{get_elem?}

-- `at` throws `std::out_of_range`; `% 0` is undefined; `assert` stops the program; the others
-- are the `std::runtime_error`s of `AllocateTable` and of a file that cannot be opened,
-- `std::invalid_argument`, and a function that ends without its value. `out_of_fuel` is of the
-- model: a loop that its fuel does not finish.
pub data Fault : Type 0 where
  out_of_range division_by_zero assertion no_size negative_epsilon invalid_argument not_open
        no_value out_of_fuel :
      Fault

pub data Run {ℓ} (A : Type ℓ) : Type ℓ where
  fault : Fault → Run A
  ok : A → Run A

-- What follows runs only after a normal end.
infixl 5 ◌>>=◌
abbrev pub ◌>>=◌ {ℓ μ} : {S : Type ℓ} {T : Type μ} → Run S → (S → Run T) → Run T
(fault reason) >>= next = fault reason
(ok result) >>= next = next result

-- The run ends normally, in a value that satisfies `P`.
abbrev pub Returns {ℓ μ} : {S : Type ℓ} → Run S → (S → Type μ) → Type (ℓ ⊔ μ)
Returns {S} run P = (result : S) × (run ≡ ok result) × P result

-- `v.at(i)`
abbrev pub at {ℓ} : {A : Type ℓ} → List A → ℕ → Run A
at xs i = elim (get_elem? xs i) [ none ↦ fault out_of_range | some x ↦ ok x ]

-- `a % b`
abbrev pub modulo : ℕ → ℕ → Run ℕ
modulo a zero = fault division_by_zero
modulo a (suc b) = ok (a % suc b)

-- A loop on fuel.
abbrev pub fueled {ℓ} : {A : Type ℓ} → Option A → Run A
fueled none = fault out_of_fuel
fueled (some x) = ok x

-- What a run of two parts that ends normally went through.
pub >>=-eq-ok {ℓ μ} :
    {S : Type ℓ} {T : Type μ} (run : Run S) (next : S → Run T) {result : T}
    → (run >>= next) ≡ ok result
    → (between : S) × (run ≡ ok between) × (next between ≡ ok result)
>>=-eq-ok (fault reason) next e = cc
>>=-eq-ok (ok between) next e = (between, refl, e)
