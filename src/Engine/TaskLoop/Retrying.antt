-- ===== src/Engine/TaskLoop/Retrying.antt =====
-- engine/immediate_task_concurrent_processor.go with engine/timer_task_concurrent_processor.go: a
-- failed call of a worker that is tried again, over the time it is put off.
use xdb.Prelude.{
  ℕ, ◌+◌, ◌%◌, ◌^◌, ◌<◌, arith, Option, none, GoString, Bool, true, some, ok, ◌≡◌, refl, sym, subst,
  nat_key, string_key, pair_key,
}
use xdb.Prelude.Maps.{get}
use xdb.DataModels.Enums.{wait_until_running, wait_until}
use xdb.DataModels.Infos.{wait_until_api, WorkerTaskBackoffInfo}
use xdb.Database.Rows.{Db, AsyncStateExecutionRow, ImmediateTaskRow}
use xdb.Process.Retries.RoundTrip.{IsNextTimer}
use xdb.Process.Reads.{PrepareStateExecutionResponse, prepared_row, prepare_state_execution}
use xdb.Engine.WorkerCalls.{
  ProcessorEnv, check_retry, begin_attempt, check_http_response_and_error,
  create_context_with_timeout,
}
use xdb.Engine.ImmediateTasks.{
  FailedAttempt, key_of_task, fire_time, retry_or_recover, with_backoff, failed_attempt,
}
use xdb.Engine.WaitUntilTasks.{wait_until_call, wait_until_answered, process_wait_until_task}
use xdb.Engine.TaskLoop.Deferring.{IsOnline, IsDeferred, BacksOff, retry_or_recover-BacksOff}
use xdb.Engine.TaskLoop.{process_worker_task, process_immediate_task}

-- One attempt more, on the clock of the first one
abbrev pub counted : ℕ → Option WorkerTaskBackoffInfo → WorkerTaskBackoffInfo
counted now none = record { completed_attempts = 1; first_attempt_timestamp_seconds = now }
counted now (some i) = record {
  completed_attempts = (i.completed_attempts + 1) % 2 ^ 32;
  first_attempt_timestamp_seconds = i.first_attempt_timestamp_seconds;
}

begin_attempt_lem :
    (now : ℕ) (backoff : Option WorkerTaskBackoffInfo)
    → begin_attempt now backoff ≡ counted now backoff
begin_attempt_lem now none = refl
begin_attempt_lem now (some i) = refl

fire_time_lem :
    (env : ProcessorEnv) (interval : ℕ)
    → interval < 2 ^ 31
    → env.clock 2 + interval < 2 ^ 63
    → fire_time env interval ≡ env.clock 2 + interval
fire_time_lem env interval small short = ground (arith, small, short)

-- The attempt that a WaitUntil task makes, where its call fails
abbrev pub wait_until_attempt :
    ProcessorEnv → ImmediateTaskRow → PrepareStateExecutionResponse → ℕ → FailedAttempt
wait_until_attempt env task prep timeout =
    let backoff = begin_attempt (env.clock 0) task.info.worker_task_backoff_info in
    let counted = with_backoff task backoff in
    let a = env.call_wait_until (wait_until_call env counted backoff prep timeout) in
    failed_attempt env counted backoff prep wait_until_api a.error a.response

abbrev pub wait_until_fails :
    ProcessorEnv → ImmediateTaskRow → PrepareStateExecutionResponse → ℕ → Bool
wait_until_fails env task prep timeout =
    let backoff = begin_attempt (env.clock 0) task.info.worker_task_backoff_info in
    let a =
      env.call_wait_until (wait_until_call env (with_backoff task backoff) backoff prep timeout) in
    check_http_response_and_error a.error a.response

pub wait_until_step :
    (env : ProcessorEnv) (task : ImmediateTaskRow) (row : AsyncStateExecutionRow) (timeout : ℕ)
    (db : Db)
    → let prep = prepared_row row in
      task.task_type ≡ wait_until
      → get db.states (key_of_task task) ≡ some row
      → row.status ≡ wait_until_running
      → create_context_with_timeout env.default_async_state_api_timeout
          env.max_async_state_api_timeout wait_until row.info.state_config
        ≡ ok timeout
      → wait_until_fails env task prep timeout ≡ true
      → process_immediate_task env task db
        ≡ retry_or_recover env (wait_until_attempt env task prep timeout) db
unfolding process_immediate_task process_worker_task prepare_state_execution process_wait_until_task
    wait_until_answered
wait_until_step env task row timeout db type found status in_time fails =
    rw (type, found, status, in_time, fails) refl

-- Where the database begins and commits, a WaitUntil task whose worker fails while the retry policy
-- gives another interval is put off without an error. The task is replaced with a timer for the sum of
-- the clock and the interval, the queue of timer tasks is notified of that very time, and when the
-- timer is processed the task is there again, the timer is gone and the queue of immediate tasks is
-- notified. The timer and the task that comes back carry one attempt more than the task did, modulo
-- 2^32, or the first one if it had none, and the time of the first attempt. The state execution is
-- running WaitUntil in its current version, the interval is below 2^31 and the sum below 2^63, and no
-- timer task has taken the next value of the sequence.
pub process_immediate_task-IsDeferred :
    (env : ProcessorEnv) (task : ImmediateTaskRow) (row : AsyncStateExecutionRow)
    (timeout interval : ℕ) (db : Db)
    → let attempt = counted (env.clock 0) task.info.worker_task_backoff_info in
      IsOnline env.connection
      → task.task_type ≡ wait_until
      → get db.states (key_of_task task) ≡ some row
      → row.status ≡ wait_until_running
      → create_context_with_timeout env.default_async_state_api_timeout
          env.max_async_state_api_timeout wait_until row.info.state_config
        ≡ ok timeout
      → wait_until_fails env task (prepared_row row) timeout ≡ true
      → check_retry env wait_until attempt row.info ≡ ok (interval, true)
      → interval < 2 ^ 31
      → env.clock 2 + interval < 2 ^ 63
      → IsNextTimer db.next_timer db.timer_tasks
      → IsDeferred env task wait_until
          (row.info.namespace, row.info.process_id)
          attempt
          (env.clock 2 + interval)
          db
          (process_immediate_task env task db)
process_immediate_task-IsDeferred env task row timeout interval db on type found status in_time
      fails again small short next =
    let f = wait_until_attempt env task (prepared_row row) timeout in
    let partition : GoString × GoString = (row.info.namespace, row.info.process_id) in
    let same = begin_attempt_lem (env.clock 0) task.info.worker_task_backoff_info in
    let o = process_immediate_task env task db in
    let attempt = counted (env.clock 0) task.info.worker_task_backoff_info in
    let time = env.clock 2 + interval in
    let deferred : BacksOff env f interval db o =
      subst (BacksOff env f interval db)
        (sym (wait_until_step env task row timeout db type found status in_time fails))
        (retry_or_recover-BacksOff env f interval row db on (rw (type, same) again) refl found refl
          next) in
    subst (λ y. IsDeferred env task y partition attempt time db o) type
      (subst (λ b. IsDeferred env task task.task_type partition b time db o) same
        (subst (λ fire. IsDeferred env task task.task_type partition f.backoff fire db o)
          (fire_time_lem env interval small short) deferred))
