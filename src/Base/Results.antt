-- ===== src/Base/Results.antt =====
-- What a Go function that returns `(T, error)` does: it returns a value with a nil error, returns
-- an error, or panics. `errors.Errorf` and `errors.Wrapf` keep their format and its arguments.
use Prim.Native.String.{String}
use mathlib.Core.Path.{◌≡◌, refl}
use mathlib.Core.List.{List}

pub data Error : Type 0 where
  -- an error of the runtime or of a library
  external : String → Error
  errorf : String → List String → Error
  wrapf : Error → String → List String → Error

pub data Panic : Type 0 where
  index_out_of_range nil_dereference type_assertion : Panic
  raised : Error → Panic
  unhandled_type : String → Panic

pub data Outcome {ℓ} (A : Type ℓ) : Type ℓ where
  ok : A → Outcome A
  err : Error → Outcome A
  panic : Panic → Outcome A

infixl 10 ◌>>=◌
abbrev pub ◌>>=◌ {κ μ} : {A : Type κ} {B : Type μ} → Outcome A → (A → Outcome B) → Outcome B
ok result >>= next = next result
err error >>= next = err error
panic cause >>= next = panic cause

-- A successful chain: its first step succeeded, and so did the rest.
pub >>=-eq-ok {κ μ} :
    {A : Type κ} {B : Type μ} (first : Outcome A) (next : A → Outcome B) {y : B}
    → (first >>= next) ≡ ok y
    → (x : A) × (first ≡ ok x) × (next x ≡ ok y)
>>=-eq-ok (ok x) next e = (x, refl, e)
>>=-eq-ok (err error) next e = cc
>>=-eq-ok (panic cause) next e = cc
