-- ===== src/Engine/TaskLoop/Recovering.antt =====
-- engine/immediate_task_concurrent_processor.go: what follows a failed call does all or nothing.
use xdb.Prelude.{
  ℕ, Bool, true, false, Option, none, some, Error, err, ◌≡◌, refl, if◌then◌else◌, Bool-cases, inl,
  inr, process_not_exists, GoString,
}
use xdb.DataModels.Infos.{
  AsyncStateConfig, RecoveryOptions, no_options, options, options_with, StateFailureRecoveryPolicy,
  fail_process_on_state_failure, proceed_to_configured_state, other_recovery,
}
use xdb.Database.Rows.{Db}
use xdb.Database.Tx.{Done}
use xdb.Process.Stop.{stop_process}
use xdb.Process.Retries.{backoff_immediate_task, recover_from_state_execution_failure}
use xdb.Engine.Actions.{Action, Notification, ◌>>◌, pure, raise, notify}
use xdb.Engine.Actions.Atomic.{
  IsAtomic, IsTotal, lift-IsAtomic, call-IsAtomic, call_checked-IsAtomic,
}
use xdb.Engine.TaskLoop.Store.{
  backoff-KeepsOnError, recover-KeepsOnError, stop-KeepsOnError, stop_process-not_exists,
}
use xdb.Engine.WorkerCalls.{ProcessorEnv, check_retry}
use xdb.Engine.ImmediateTasks.{
  FailedAttempt, backoff_request, failure_stop, recovery_request, notify_if, retry_task,
  stop_for_failure, proceed_to, by_policy, by_options, apply_state_failure_recovery_policy,
  retry_or_recover, recovery_options,
}

pub notify_if-IsTotal : (b : Bool) (n : Notification) → IsTotal (notify_if b n)
notify_if-IsTotal true n db = refl
notify_if-IsTotal false n db = refl

pub two-IsTotal : (b c : Bool) (n m : Notification) → IsTotal (notify_if b n >> notify_if c m)
two-IsTotal true true n m db = refl
two-IsTotal true false n m db = refl
two-IsTotal false true n m db = refl
two-IsTotal false false n m db = refl

pub raise-IsAtomic : (x : Error) → IsAtomic {A = Done} (raise x)
raise-IsAtomic x db y e = (refl, refl)

pub pure-IsAtomic : IsAtomic {A = Done} (pure tt)
pure-IsAtomic db y e = (refl, refl)

pub if-IsAtomic :
    (b : Bool) (m n : Action Done) → IsAtomic m → IsAtomic n → IsAtomic (if b then m else n)
if-IsAtomic true m n h k = h
if-IsAtomic false m n h k = k

pub check_fails :
    (b : Bool) (db : Db) (x : Error)
    → b ≡ false
    → ¬ (((if b then raise process_not_exists else pure tt) db).result ≡ err x)
check_fails true db x e q = absurd (cc e)
check_fails false db x e q = absurd (cc q)

module _ (env : ProcessorEnv) where
  retry_task-IsAtomic : (f : FailedAttempt) (interval : ℕ) → IsAtomic (retry_task env f interval)
  unfolding retry_task
  retry_task-IsAtomic f interval =
      call-IsAtomic
        (backoff_immediate_task env.connection (backoff_request env f interval) (env.clock 3)
          env.app_answer)
        (λ _. notify _) (backoff-KeepsOnError env (backoff_request env f interval)) (λ a db. refl)

  proceed_to-IsAtomic :
      (f : FailedAttempt) (state_id : Option GoString) (config : Option AsyncStateConfig)
      → IsAtomic (proceed_to env f state_id config)
  unfolding proceed_to
  proceed_to-IsAtomic f none config = raise-IsAtomic _
  proceed_to-IsAtomic f (some state_id) config =
      call-IsAtomic
        (recover_from_state_execution_failure env.connection (recovery_request f state_id config)
          (env.clock 3) env.app_answer)
        (λ _. notify _) (recover-KeepsOnError env (recovery_request f state_id config))
        (λ a db. refl)

  stop_for_failure-IsAtomic : (f : FailedAttempt) → IsAtomic (stop_for_failure env f)
  unfolding stop_for_failure
  stop_for_failure-IsAtomic f =
      call_checked-IsAtomic
        (stop_process env.connection (failure_stop f) (env.clock 3) env.app_answer)
        (λ resp. if resp.not_exists then raise process_not_exists else pure tt)
        (stop-KeepsOnError env (failure_stop f))
        (λ db resp x e q. elim (Bool-cases resp.not_exists) [
          | inl missing ↦ (
            stop_process-not_exists env (failure_stop f) db resp e missing,
            rw missing (refl, refl),
          )
          | inr found ↦ absurd (check_fails resp.not_exists _ x found q)
        ])

  by_policy-IsAtomic :
      (f : FailedAttempt) (policy : StateFailureRecoveryPolicy) (state_id : Option GoString)
      (config : Option AsyncStateConfig)
      → IsAtomic (by_policy env f policy state_id config)
  by_policy-IsAtomic f fail_process_on_state_failure state_id config = stop_for_failure-IsAtomic f
  by_policy-IsAtomic f proceed_to_configured_state state_id config =
      proceed_to-IsAtomic f state_id config
  by_policy-IsAtomic f other_recovery state_id config = raise-IsAtomic _

  by_options-IsAtomic :
      (f : FailedAttempt) (recovery : RecoveryOptions) → IsAtomic (by_options env f recovery)
  by_options-IsAtomic f no_options = stop_for_failure-IsAtomic f
  by_options-IsAtomic f (options policy state_id) = by_policy-IsAtomic f policy state_id none
  by_options-IsAtomic f (options_with policy state_id config) =
      by_policy-IsAtomic f policy state_id (some config)

  pub retry_or_recover-IsAtomic : (f : FailedAttempt) → IsAtomic (retry_or_recover env f)
  unfolding retry_or_recover apply_state_failure_recovery_policy
  retry_or_recover-IsAtomic f =
      lift-IsAtomic (check_retry env f.task.task_type f.backoff f.prep.info) _ (λ decision.
        if-IsAtomic decision.1 _ _ (retry_task-IsAtomic f decision.0)
          (by_options-IsAtomic f (recovery_options f.prep.info.state_config)))
