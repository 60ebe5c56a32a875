-- ===== src/Engine/TaskLoop/Failing.antt =====
-- engine/immediate_task_concurrent_processor.go, applyStateFailureRecoveryPolicy: a failed call of a
-- worker that is not tried again, where the policy is to fail the process.
use xdb.Prelude.{
  ℕ, Bool, true, false, [], Option, none, some, ok, ◌≡◌, refl, sym, subst, GoString, nat_key,
  string_key, pair_key,
}
use xdb.Prelude.Maps.{get}
use xdb.DataModels.Enums.{ProcessExecutionStatus, wait_until_running, wait_until, is_running}
use xdb.DataModels.Infos.{
  Uuid, AsyncStateConfig, RecoveryOptions, no_options, options, options_with,
  StateFailureRecoveryPolicy, fail_process_on_state_failure,
}
use xdb.Database.Rows.{Db, AsyncStateExecutionRow, ImmediateTaskRow, ProcessExecutionRow}
use xdb.Database.Tx.{Done}
use xdb.Process.Stop.{stop_process}
use xdb.Process.Stop.Stopped.{IsLatest, HasStopped}
use xdb.Process.Stop.Stopping.{stop_process-running}
use xdb.Process.Reads.{prepared_row}
use xdb.Engine.Actions.{Outcome}
use xdb.Engine.WorkerCalls.{ProcessorEnv, check_retry, create_context_with_timeout}
use xdb.Engine.ImmediateTasks.{
  FailedAttempt, key_of_task, failure_stop, stop_for_failure, recovery_options, by_policy,
  by_options, apply_state_failure_recovery_policy, retry_or_recover,
}
use xdb.Engine.TaskLoop.{process_immediate_task}
use xdb.Engine.TaskLoop.Deferring.{IsOnline}
use xdb.Engine.TaskLoop.Retrying.{wait_until_attempt, wait_until_fails, wait_until_step}

-- The policies that end in a stop of the process
abbrev policy_fails : StateFailureRecoveryPolicy → Bool
policy_fails fail_process_on_state_failure = true
policy_fails _ = false

abbrev pub fails_process : RecoveryOptions → Bool
fails_process no_options = true
fails_process (options policy _) = policy_fails policy
fails_process (options_with policy _ _) = policy_fails policy

-- The latest execution of the process of a state fails, recorded in shard 0, and nobody is notified.
abbrev pub StopsLatest :
    AsyncStateExecutionRow → Uuid → ProcessExecutionRow → ℕ → Db → Outcome Done → Type 0
StopsLatest row id p now db o =
    (o.result ≡ ok tt)
    × (o.sent ≡ [])
    × HasStopped ProcessExecutionStatus.failed 0 (row.info.namespace, row.info.process_id) id p now
        db o.tables

by_policy_lem :
    (env : ProcessorEnv) (f : FailedAttempt) (policy : StateFailureRecoveryPolicy)
    (state_id : Option GoString) (config : Option AsyncStateConfig)
    → policy_fails policy ≡ true
    → by_policy env f policy state_id config ≡ stop_for_failure env f
by_policy_lem env f fail_process_on_state_failure state_id config e = refl
by_policy_lem env f StateFailureRecoveryPolicy.proceed_to_configured_state state_id config e =
    absurd (cc e)
by_policy_lem env f StateFailureRecoveryPolicy.other_recovery state_id config e = absurd (cc e)

by_options_lem :
    (env : ProcessorEnv) (f : FailedAttempt) (recovery : RecoveryOptions)
    → fails_process recovery ≡ true
    → by_options env f recovery ≡ stop_for_failure env f
by_options_lem env f no_options e = refl
by_options_lem env f (options policy state_id) e = by_policy_lem env f policy state_id none e
by_options_lem env f (options_with policy state_id config) e =
    by_policy_lem env f policy state_id (some config) e

stop_for_failure-StopsLatest :
    (env : ProcessorEnv) (f : FailedAttempt) (row : AsyncStateExecutionRow) (db : Db) (id : Uuid)
    (p : ProcessExecutionRow)
    → f.prep.info ≡ row.info
    → IsOnline env.connection
    → IsLatest db (row.info.namespace, row.info.process_id) id p
    → is_running p.status ≡ true
    → StopsLatest row id p (env.clock 3) db (stop_for_failure env f db)
unfolding stop_for_failure
stop_for_failure-StopsLatest env f row db id p info (begins, commits) latest running =
    let (answer, stopped) =
      stop_process-running env.connection (failure_stop f) (env.clock 3) env.app_answer db id p
        begins commits (rw info latest) running in
    rw answer (
      refl,
      refl,
      subst
          (λ i.
            HasStopped ProcessExecutionStatus.failed 0 (i.namespace, i.process_id) id p
              (env.clock 3) db
              (stop_process env.connection (failure_stop f) (env.clock 3) env.app_answer db).1)
          info stopped,
    )

retry_or_recover-StopsLatest :
    (env : ProcessorEnv) (f : FailedAttempt) (interval : ℕ) (row : AsyncStateExecutionRow) (db : Db)
    (id : Uuid) (p : ProcessExecutionRow)
    → f.prep.info ≡ row.info
    → IsOnline env.connection
    → check_retry env f.task.task_type f.backoff f.prep.info ≡ ok (interval, false)
    → fails_process (recovery_options f.prep.info.state_config) ≡ true
    → IsLatest db (row.info.namespace, row.info.process_id) id p
    → is_running p.status ≡ true
    → StopsLatest row id p (env.clock 3) db (retry_or_recover env f db)
unfolding retry_or_recover apply_state_failure_recovery_policy
retry_or_recover-StopsLatest env f interval row db id p info on over fails latest running =
    rw (over, by_options_lem env f (recovery_options f.prep.info.state_config) fails)
      (stop_for_failure-StopsLatest env f row db id p info on latest running)

-- Where the database begins and commits, a WaitUntil task whose worker fails, with no attempt left and
-- a recovery policy that is missing or is to fail the process, stops the execution that is the latest
-- one of the process when that runs, whatever execution the task is of: its status is failed, nothing
-- is pending in it, its unfinished states are aborted if any was pending, the tasks are those there
-- were and one that records the status, which stands in shard 0 whatever the shard of the task is, and
-- nobody is notified.
pub process_immediate_task-StopsLatest :
    (env : ProcessorEnv) (task : ImmediateTaskRow) (row : AsyncStateExecutionRow)
    (timeout interval : ℕ) (db : Db) (id : Uuid) (p : ProcessExecutionRow)
    → IsOnline env.connection
    → task.task_type ≡ wait_until
    → get db.states (key_of_task task) ≡ some row
    → row.status ≡ wait_until_running
    → create_context_with_timeout env.default_async_state_api_timeout
        env.max_async_state_api_timeout wait_until row.info.state_config
      ≡ ok timeout
    → wait_until_fails env task (prepared_row row) timeout ≡ true
    → check_retry env wait_until
        (wait_until_attempt env task (prepared_row row) timeout).backoff
        row.info
      ≡ ok (interval, false)
    → fails_process (recovery_options row.info.state_config) ≡ true
    → IsLatest db (row.info.namespace, row.info.process_id) id p
    → is_running p.status ≡ true
    → StopsLatest row id p (env.clock 3) db (process_immediate_task env task db)
process_immediate_task-StopsLatest env task row timeout interval db id p on type found status
      in_time call_fails over fails latest running =
    let f = wait_until_attempt env task (prepared_row row) timeout in
    subst (StopsLatest row id p (env.clock 3) db)
      (sym (wait_until_step env task row timeout db type found status in_time call_fails))
      (retry_or_recover-StopsLatest env f interval row db id p refl on (rw type over) fails latest
        running)
