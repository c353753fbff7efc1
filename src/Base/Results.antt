-- ===== src/Base/Results.antt =====
-- Go errors, and what a call comes to: a value, an error, or a panic.
use mathlib.Core.Logic.{◌≢◌}
use mathlib.Core.Path.{◌≡◌, refl}
use phylax.Base.Texts.{Text}

-- `message` is errors.New or an error of a package; `wrap` is fmt.Errorf with `%w`; `pg_error` is
-- a *pgconn.PgError with its SQLSTATE; the rest are the sentinels that the code tests for.
pub data Error : Type 0 where
  message : Text → Error
  wrap : Text → Error → Error
  pg_error : Text → Error
  canceled deadline_exceeded no_rows : Error

pub data Res {ℓ} (A : Type ℓ) : Type ℓ where
  ok : A → Res A
  err : Error → Res A
  panic : Res A

infixl 5 ◌>>=◌
abbrev pub ◌>>=◌ {ℓ κ} : {A : Type ℓ} {B : Type κ} → Res A → (A → Res B) → Res B
panic >>= next = panic
err failure >>= next = err failure
ok value >>= next = next value

-- `if err != nil { return fmt.Errorf("text: %w", err) }`
abbrev pub wrapped {ℓ} : {A : Type ℓ} → Text → Res A → Res A
wrapped t (ok a) = ok a
wrapped t (err e) = err (Error.wrap t e)
wrapped t panic = panic

pub >>=-eq-ok {ℓ κ} :
    {A : Type ℓ} {B : Type κ} (r : Res A) (next : A → Res B) {y : B}
    → (r >>= next) ≡ ok y
    → (x : A) × (r ≡ ok x) × (next x ≡ ok y)
>>=-eq-ok panic next h = absurd (cc)
>>=-eq-ok (err failure) next h = absurd (cc)
>>=-eq-ok (ok x) next h = (x, refl, h)

pub wrapped-eq-ok {ℓ} : {A : Type ℓ} (t : Text) (r : Res A) {a : A} → wrapped t r ≡ ok a → r ≡ ok a
wrapped-eq-ok t (ok a) h = h
wrapped-eq-ok t (err e) h = absurd (cc)
wrapped-eq-ok t panic h = absurd (cc)

pub >>=-ne-panic {ℓ κ} :
    {A : Type ℓ} {B : Type κ} (m : Res A) (f : A → Res B)
    → m ≢ panic
    → ((a : A) → f a ≢ panic)
    → (m >>= f) ≢ panic
>>=-ne-panic (ok a) f h k = k a
>>=-ne-panic (err e) f h k = λ p. cc
>>=-ne-panic panic f h k = λ p. h refl

pub wrapped-ne-panic {ℓ} : {A : Type ℓ} (t : Text) (r : Res A) → r ≢ panic → wrapped t r ≢ panic
wrapped-ne-panic t (ok a) h = λ p. cc
wrapped-ne-panic t (err e) h = λ p. cc
wrapped-ne-panic t panic h = h
