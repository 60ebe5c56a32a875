-- ===== src/Engine/Backoff/Limits.antt =====
-- GetNextBackoff of engine/backoff.go: when a worker task is tried again, and the bound of the
-- interval.
use xdb.Prelude.{ℕ, ◌+◌, ◌^◌, ◌≤◌, ◌<◌, arith, Bool, true, false, Option, ◌≡◌, ◌↔◌, ◌⊎◌, subst, ap}
use xdb.DataModels.Infos.{RetryPolicy}
use xdb.Engine.Backoff.{
  greater32, is_exhausted, is_overdue, at_most, set_default, next_interval, backoff_unless,
  get_next_backoff,
}

-- The limits on the attempts and on their duration leave room; zero is no limit.
abbrev pub AttemptsLeft : ℕ → ℕ → Type 0
AttemptsLeft maximum completed = (maximum ≡ 0) ⊎ (completed < maximum)

abbrev pub TimeLeft : ℕ → ℕ → ℕ → Type 0
TimeLeft duration first now = (duration ≡ 0) ⊎ (now ≤ first + duration)

attempts_left :
    (maximum completed : ℕ)
    → maximum < 2 ^ 31
    → completed < 2 ^ 31
    → (is_exhausted maximum completed ≡ false) ↔ AttemptsLeft maximum completed
attempts_left maximum completed h k = ground arith

time_left :
    (duration first now : ℕ)
    → duration < 2 ^ 31
    → first < 2 ^ 62
    → now < 2 ^ 62
    → (is_overdue duration first now ≡ false) ↔ TimeLeft duration first now
time_left duration first now h k l = ground arith

at_most_lem : (maximum next : ℕ) → greater32 (at_most maximum next) maximum ≡ false
at_most_lem maximum next = ground arith

retries_when :
    (b c : Bool) (n : ℕ) → ((backoff_unless b c n).1 ≡ true) ↔ ((b ≡ false) × (c ≡ false))
retries_when b c n = ground arith

interval_is : (b c : Bool) (n m : ℕ) → backoff_unless b c n ≡ (m, true) → n ≡ m
interval_is true c n m e = absurd (cc (ap (λ p. p.1) e))
interval_is false true n m e = absurd (cc (ap (λ p. p.1) e))
interval_is false false n m e = ap (λ p. p.0) e

module _ {ℓ} {F : Type ℓ} (two : F) (scaled : ℕ → F → ℕ → ℕ) where
  -- A task is tried again just when the limits of its policy leave an attempt and time, for limits
  -- and attempts that are not negative and times from 0 to below 2^62.
  pub get_next_backoff-retries :
      (completed first : ℕ) (policy : Option (RetryPolicy F)) (now : ℕ)
      → completed < 2 ^ 31
      → (set_default two policy).maximum_attempts < 2 ^ 31
      → (set_default two policy).maximum_attempts_duration_seconds < 2 ^ 31
      → first < 2 ^ 62
      → now < 2 ^ 62
      → ((get_next_backoff two scaled completed first policy now).1 ≡ true) ↔ (
          AttemptsLeft (set_default two policy).maximum_attempts completed
          × TimeLeft (set_default two policy).maximum_attempts_duration_seconds first now)
  unfolding get_next_backoff
  get_next_backoff-retries completed first policy now h a d f n =
      let p = set_default two policy in
      let r =
        retries_when (is_exhausted p.maximum_attempts completed)
          (is_overdue p.maximum_attempts_duration_seconds first now)
          (next_interval two scaled p completed) in
      let x = attempts_left p.maximum_attempts completed a h in
      let y = time_left p.maximum_attempts_duration_seconds first now d f n in
      (λ e. (x.0 (r.0 e).0, y.0 (r.0 e).1), λ e. r.1 (x.1 e.0, y.1 e.1))

  -- The interval of a further attempt is not above the maximum of the policy, as signed numbers.
  pub get_next_backoff-bounded :
      (completed first : ℕ) (policy : Option (RetryPolicy F)) (now seconds : ℕ)
      → get_next_backoff two scaled completed first policy now ≡ (seconds, true)
      → greater32 seconds (set_default two policy).maximum_interval_seconds ≡ false
  unfolding get_next_backoff
  get_next_backoff-bounded completed first policy now seconds e =
      let p = set_default two policy in
      subst (λ s. greater32 s p.maximum_interval_seconds ≡ false)
        (interval_is (is_exhausted p.maximum_attempts completed)
          (is_overdue p.maximum_attempts_duration_seconds first now) _ seconds e)
        (at_most_lem p.maximum_interval_seconds _)
