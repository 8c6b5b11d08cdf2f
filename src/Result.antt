-- ===== src/Result.antt =====
-- Go's `error` values, and a pure function that may return one.
pub mod Action
use sftp2s.Prelude.{ℕ, String, Bytes, ◌≡◌, refl}

-- The errors that the program tests for or returns. `message` is `fmt.Errorf` with a fixed text, and
-- `told` one whose text comes from the configuration; `failed` is any other error of a library call,
-- which the program only passes on, and `out_of_fuel` marks a run of the model that was cut short: no
-- code returns it. An error that is wrapped for its text stays the same error.
pub data Error : Type 0 where
  not_exist eof permission_denied op_unsupported not_found no_such_key : Error
  out_of_fuel : Error
  message : String → Error
  told : Bytes → Error
  failed : ℕ → Error

pub data Result {ℓ} (A : Type ℓ) : Type ℓ where
  ok : A → Result A
  err : Error → Result A

infixl 5 ◌>>=◌
abbrev pub ◌>>=◌ {ℓ κ} : {A : Type ℓ} {B : Type κ} → Result A → (A → Result B) → Result B
ok a >>= f = f a
err e >>= f = err e

pub ok-injective {ℓ} : {A : Type ℓ} {a b : A} → ok a ≡ ok b → a ≡ b
ok-injective h = cc

pub >>=-eq-ok {ℓ κ} :
    {A : Type ℓ} {B : Type κ} (r : Result A) (f : A → Result B) {b : B}
    → (r >>= f) ≡ ok b
    → (a : A) × (r ≡ ok a) × (f a ≡ ok b)
>>=-eq-ok (ok a) f h = (a, refl, h)
>>=-eq-ok (err e) f h = cc
