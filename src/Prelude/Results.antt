-- ===== src/Prelude/Results.antt =====
-- Go's `(value, error)` pairs as values. The errors are those that the code tells apart.
use mathlib.Core.Path.{◌≡◌}

-- `not_found` is sql.ErrNoRows, `dup_entry` a violated primary key, `conditional_update_failure`
-- the error of a conditional update that touches no row, `begin_failure` and `commit_failure` what
-- the connection may answer at the ends of a transaction; the others are made by the code.
pub data Error : Type 0 where
  not_found dup_entry conditional_update_failure begin_failure commit_failure : Error
  state_not_started missing_backoff_info process_not_exists invalid_format invalid_number : Error
  invalid_decision missing_primary_key missing_visibility_info missing_recovery_state : Error
  unknown_policy panic app_database_error worker_error : Error
  undefined_status missing_start_time : Error
  lock_not_supported table_not_configured missing_state_config missing_app_database_config : Error

pub data Result {ℓ} (A : Type ℓ) : Type ℓ where
  ok : A → Result A
  err : Error → Result A

pub ok≢err {ℓ} : {A : Type ℓ} {a : A} {e : Error} → ¬ (ok a ≡ err e)
ok≢err p = cc

pub ok-injective {ℓ} : {A : Type ℓ} {a b : A} → ok a ≡ ok b → a ≡ b
ok-injective p = cc

infixl 5 ◌>>=◌
abbrev pub ◌>>=◌ {ℓ κ} : {A : Type ℓ} {B : Type κ} → Result A → (A → Result B) → Result B
ok a >>= f = f a
err e >>= f = err e
