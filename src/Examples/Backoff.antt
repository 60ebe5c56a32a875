-- ===== src/Examples/Backoff.antt =====
-- GetNextBackoff at concrete policies, with natural numbers in the place of floats.
use xdb.Prelude.{ℕ, ◌*◌, ◌%◌, ◌^◌, arith, true, false, none, some, ◌≡◌, ◌↔◌, refl}
use xdb.DataModels.Infos.{RetryPolicy}
use xdb.Engine.Backoff.{set_default, greater32, get_next_backoff}
use xdb.Engine.Backoff.Limits.{
  AttemptsLeft, TimeLeft, get_next_backoff-retries, get_next_backoff-bounded,
}

abbrev product : ℕ → ℕ → ℕ → ℕ
product interval coefficient n = (interval * coefficient ^ n) % 2 ^ 32

abbrev five_attempts : RetryPolicy ℕ
five_attempts = record {
  initial_interval_seconds = some 2;
  backoff_coefficient = some 3;
  maximum_interval_seconds = some 10;
  maximum_attempts = some 5;
  maximum_attempts_duration_seconds = some 60;
}

third_attempt : get_next_backoff 2 product 2 100 (some five_attempts) 110 ≡ (6, true)
unfolding get_next_backoff
third_attempt = refl

fourth_attempt : get_next_backoff 2 product 3 100 (some five_attempts) 110 ≡ (10, true)
unfolding get_next_backoff
fourth_attempt = refl

sixth_attempt : get_next_backoff 2 product 5 100 (some five_attempts) 110 ≡ (0, false)
unfolding get_next_backoff
sixth_attempt = refl

retries_example :
    ((get_next_backoff 2 product 3 100 (some five_attempts) 110).1 ≡ true)
    ↔ (AttemptsLeft 5 3 × TimeLeft 60 100 110)
retries_example =
    get_next_backoff-retries 2 product 3 100 (some five_attempts) 110 (omega arith) (omega arith)
      (omega arith) (omega arith) (omega arith)

bounded_example : greater32 10 (set_default 2 (some five_attempts)).maximum_interval_seconds ≡ false
bounded_example =
    get_next_backoff-bounded 2 product 3 100 (some five_attempts) 110 10 fourth_attempt

-- A product out of the range of int32 may be converted to its smallest value, which is kept.
negative_interval :
    get_next_backoff {F = ℕ} 2 (λ interval coefficient n. 2 ^ 31) 40 100 none 110 ≡ (2 ^ 31, true)
unfolding get_next_backoff
negative_interval = refl
