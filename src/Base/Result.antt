-- ===== src/Base/Result.antt =====
-- A Go result `(value, error)`, as code that checks `err != nil` sees it.
use Prim.Native.String.{String}
use mathlib.Core.Bool.{Bool, true, false}

-- An error is told apart by the two sentinels that the code compares with, by its format string,
-- and by what it wraps. The values that a format prints are left out.
pub data Error : Type 0 where
  eof : Error
  object_not_exist : Error
  errorf : String → Error
  wrap : String → Error → Error

pub data Result {ℓ} (A : Type ℓ) : Type ℓ where
  ok : A → Result A
  err : Error → Result A

infixl 5 ◌>>=◌ ◌>>◌
abbrev pub ◌>>=◌ {ℓ κ} : {A : Type ℓ} {B : Type κ} → Result A → (A → Result B) → Result B
ok a >>= f = f a
err e >>= f = err e

abbrev pub ◌>>◌ {ℓ κ} : {A : Type ℓ} {B : Type κ} → Result A → Result B → Result B
m >> k = m >>= λ _. k

-- `if !test { return ..., fmt.Errorf(message) }`
abbrev pub guard : Bool → Error → Result (Unit {0})
guard true e = ok tt
guard false e = err e

-- `if err != nil { return ..., fmt.Errorf("message: %v", err) }`
abbrev pub within {ℓ} : {A : Type ℓ} → String → Result A → Result A
within message (ok a) = ok a
within message (err e) = err (wrap message e)

-- `err == nil`
abbrev pub is_ok {ℓ} : {A : Type ℓ} → Result A → Bool
is_ok (ok a) = true
is_ok (err e) = false
