-- ===== src/Prelude/Results.antt =====
-- The exceptions that the program raises, with the texts of their messages, and fallible code.
use Prim.Native.String.{String}
use mathlib.Core.Path.{◌≡◌, refl}
use mathlib.Core.Logic.{◌⊎◌, inl, inr}
use mathlib.Core.Bool.{Bool, true, false}

pub data Error : Type 0 where
  value_error key_error type_error runtime_error attribute_error : String → Error
  authentication_error authorization_error : String → Error
  -- what PyJWT raises: InvalidTokenError, and another PyJWTError, such as InvalidKeyError
  invalid_token_error invalid_key_error : String → Error
  overflow_error recursion_error : String → Error
  file_exists_error : String → Error
  file_not_found_error : Error
  -- the other errors of the file system
  os_error : String → Error
  artifact_integrity_error : String → Error
  -- a constraint of the database's schema
  integrity_error : String → Error

pub data Result {ℓ} (A : Type ℓ) : Type ℓ where
  ok : A → Result A
  err : Error → Result A

abbrev pub is_ok {ℓ} : {A : Type ℓ} → Result A → Bool
is_ok (ok _) = true
is_ok (err _) = false

infixl 5 ◌>>=◌ ◌>>◌
abbrev pub ◌>>=◌ {ℓ κ} : {B : Type κ} {A : Type ℓ} → Result A → (A → Result B) → Result B
ok value >>= next = next value
err raised >>= next = err raised

abbrev pub ◌>>◌ {ℓ} : {A : Type ℓ} → Result (Unit {0}) → Result A → Result A
ok _ >> next = next
err raised >> next = err raised

-- `if test: raise e`
abbrev pub raise_if : Bool → Error → Result (Unit {0})
raise_if true e = err e
raise_if false e = ok tt

pub Result-cases : (r : Result (Unit {0})) → (r ≡ ok tt) ⊎ ((e : Error) × (r ≡ err e))
Result-cases (ok _) = inl refl
Result-cases (err e) = inr (e, refl)

pub Result-split {ℓ} :
    {A : Type ℓ} (r : Result A) → ((a : A) × (r ≡ ok a)) ⊎ ((e : Error) × (r ≡ err e))
Result-split (ok a) = inl (a, refl)
Result-split (err e) = inr (e, refl)

pub ok-injective {ℓ} : {A : Type ℓ} (x y : A) → ok x ≡ ok y → x ≡ y
ok-injective x y e = cc

-- What a chain of fallible code answers, its first part answers before.
pub ok-bind {ℓ κ} :
    {A : Type ℓ} {B : Type κ} (r : Result A) (next : A → Result B) (b : B)
    → (r >>= next) ≡ ok b
    → (a : A) × (r ≡ ok a) × (next a ≡ ok b)
ok-bind (ok a) next b e = (a, refl, e)
ok-bind (err raised) next b e = cc

pub ok-raise_if {ℓ} :
    {A : Type ℓ} (test : Bool) (raised : Error) (next : Result A) (a : A)
    → (raise_if test raised >> next) ≡ ok a
    → (test ≡ false) × (next ≡ ok a)
ok-raise_if true raised next a e = cc
ok-raise_if false raised next a e = (refl, e)

pub answer_of {ℓ} : {A : Type ℓ} (r : Result A) → is_ok r ≡ true → (a : A) × (r ≡ ok a)
answer_of (ok a) h = (a, refl)
answer_of (err e) h = cc
