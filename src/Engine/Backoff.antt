-- ===== src/Engine/Backoff.antt =====
-- engine/backoff.go, with the default policy of const.go. An int32 and an int64 are their patterns,
-- compared as signed numbers. Floats are a parameter: `two` is the default coefficient, and
-- `scaled` is the product with the power that math.Pow gives, converted to int32.
pub mod Limits
use xdb.Prelude.{
  ℕ, ◌+◌, ◌-◌, ◌%◌, ◌^◌, Bool, true, false, not, ◌&&◌, Option, none, some, if◌then◌else◌, ltb,
}
use xdb.DataModels.Infos.{RetryPolicy}

-- The order of signed 32-bit and 64-bit numbers.
abbrev pub shift32 : ℕ → ℕ
shift32 a = (a + 2 ^ 31) % 2 ^ 32

abbrev pub shift64 : ℕ → ℕ
shift64 a = (a + 2 ^ 63) % 2 ^ 64

abbrev pub greater32 : ℕ → ℕ → Bool
greater32 a b = ltb (shift32 b) (shift32 a)

abbrev pub less64 : ℕ → ℕ → Bool
less64 a b = ltb (shift64 a) (shift64 b)

-- The conversion from int32 to int64
abbrev pub to_int64 : ℕ → ℕ
to_int64 a = if ltb a (2 ^ 31) then a else a + (2 ^ 64 - 2 ^ 32)

abbrev pub or_default {ℓ} : {A : Type ℓ} → A → Option A → A
or_default d none = d
or_default d (some a) = a

-- The fields of a policy whose defaults are set.
pub record FullPolicy {ℓ} (F : Type ℓ) : Type ℓ where
  pub initial_interval_seconds : ℕ
  pub backoff_coefficient : F
  pub maximum_interval_seconds : ℕ
  pub maximum_attempts : ℕ
  pub maximum_attempts_duration_seconds : ℕ

-- *policy.MaximumAttempts > 0 && completedAttempts >= *policy.MaximumAttempts
abbrev pub is_exhausted : ℕ → ℕ → Bool
is_exhausted maximum completed = greater32 maximum 0 && not (greater32 maximum completed)

-- The test on MaximumAttemptsDurationSeconds
abbrev pub is_overdue : ℕ → ℕ → ℕ → Bool
is_overdue duration first now =
    greater32 duration 0 && less64 ((first + to_int64 duration) % 2 ^ 64) now

abbrev pub at_most : ℕ → ℕ → ℕ
at_most maximum next = if greater32 next maximum then maximum else next

-- The results of the two early returns, and of the last one.
abbrev pub backoff_unless : Bool → Bool → ℕ → ℕ × Bool
backoff_unless exhausted overdue seconds =
    if exhausted then (0, false) else if overdue then (0, false) else (seconds, true)

abbrev pub no_policy {ℓ} : {F : Type ℓ} → RetryPolicy F
no_policy = record {
  initial_interval_seconds = none;
  backoff_coefficient = none;
  maximum_interval_seconds = none;
  maximum_attempts = none;
  maximum_attempts_duration_seconds = none;
}

-- setDefaultRetryPolicyValue
abbrev pub set_default {ℓ} : {F : Type ℓ} → F → Option (RetryPolicy F) → FullPolicy F
set_default two policy =
    let p = or_default no_policy policy in
    record {
      initial_interval_seconds = or_default 1 p.initial_interval_seconds;
      backoff_coefficient = or_default two p.backoff_coefficient;
      maximum_interval_seconds = or_default 120 p.maximum_interval_seconds;
      maximum_attempts = or_default 0 p.maximum_attempts;
      maximum_attempts_duration_seconds = or_default 0 p.maximum_attempts_duration_seconds;
    }

module _ {ℓ} {F : Type ℓ} (two : F) (scaled : ℕ → F → ℕ → ℕ) where
  abbrev pub next_interval : FullPolicy F → ℕ → ℕ
  next_interval p completed = at_most p.maximum_interval_seconds (
      scaled p.initial_interval_seconds p.backoff_coefficient ((completed + (2 ^ 32 - 1)) % 2 ^ 32))

  -- GetNextBackoff at the time `now`
  unfoldable pub get_next_backoff : ℕ → ℕ → Option (RetryPolicy F) → ℕ → ℕ × Bool
  get_next_backoff completed first policy now =
      let p = set_default two policy in
      backoff_unless (is_exhausted p.maximum_attempts completed)
        (is_overdue p.maximum_attempts_duration_seconds first now) (next_interval p completed)
