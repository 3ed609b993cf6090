-- ===== src/Result.antt =====
-- core/result.h: errors as values. `Result::success` is `ok` and `Result::failure` is `err`.
use drive_lab.Prelude.{Bool, true, false, Text, ◌≡◌, refl, ◌⊎◌, inl, inr}

pub data ErrorCode : Type 0 where
  invalid_argument invalid_identity not_found unavailable permission_denied : ErrorCode
  safety_blocked identity_mismatch invalid_state execution_disabled : ErrorCode
  process_failure timed_out io_error internal : ErrorCode

pub record Error : Type 0 where
  pub code : ErrorCode
  pub component : Text
  pub message : Text

pub data Result {ℓ} (A : Type ℓ) : Type ℓ where
  ok : A → Result A
  err : Error → Result A

infixl 5 ◌>>=◌
abbrev pub ◌>>=◌ {ℓ κ} : {A : Type ℓ} {B : Type κ} → Result A → (A → Result B) → Result B
ok a >>= f = f a
err e >>= f = err e

abbrev pub is_ok {ℓ} : {A : Type ℓ} → Result A → Bool
is_ok (ok a) = true
is_ok (err e) = false

-- To split on a computed result and keep the equation.
pub Result-cases {ℓ} :
    {A : Type ℓ} (r : Result A) → ((a : A) × (r ≡ ok a)) ⊎ ((e : Error) × (r ≡ err e))
Result-cases (ok a) = inl (a, refl)
Result-cases (err e) = inr (e, refl)
