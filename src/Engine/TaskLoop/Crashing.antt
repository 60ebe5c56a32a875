-- ===== src/Engine/TaskLoop/Crashing.antt =====
-- engine/immediate_task_concurrent_processor.go, checkRetry: a failed call of a worker for a state
-- that has no configuration.
use xdb.Prelude.{
  true, Bool, [], none, some, err, panic, ◌≡◌, refl, ap, ◌∙◌, inl, inr, nat_key, string_key,
  pair_key,
}
use xdb.Prelude.Maps.{get}
use xdb.DataModels.Enums.{wait_until_running, wait_until}
use xdb.Database.Rows.{Db, AsyncStateExecutionRow, ImmediateTaskRow}
use xdb.Process.Reads.{prepared_row}
use xdb.Engine.WorkerCalls.{ProcessorEnv, check_retry, create_context_with_timeout}
use xdb.Engine.ImmediateTasks.{key_of_task, retry_or_recover}
use xdb.Engine.TaskLoop.{crashed, process_immediate_task, take_task}
use xdb.Engine.TaskLoop.Atomic.{process_immediate_task-err}
use xdb.Engine.TaskLoop.Retrying.{wait_until_fails, wait_until_step}

unconfigured_panics :
    (env : ProcessorEnv) (task : ImmediateTaskRow) (row : AsyncStateExecutionRow) (db : Db)
    → task.task_type ≡ wait_until
    → get db.states (key_of_task task) ≡ some row
    → row.status ≡ wait_until_running
    → row.info.state_config ≡ none
    → wait_until_fails env task (prepared_row row) env.default_async_state_api_timeout ≡ true
    → (process_immediate_task env task db).result ≡ err panic
unfolding retry_or_recover check_retry create_context_with_timeout
unconfigured_panics env task row db type found status unconfigured fails =
    ap (λ o. o.result)
      (wait_until_step env task row env.default_async_state_api_timeout db type found status
        (rw unconfigured refl) fails)
    ∙ rw (type, unconfigured) refl

-- The loop that takes a WaitUntil task whose worker fails, of a running state without a configuration,
-- dies of a panic, with the tables as they were and nobody notified.
pub take_task-crashes :
    (env : ProcessorEnv) (task : ImmediateTaskRow) (row : AsyncStateExecutionRow) (after : Bool)
    (db : Db)
    → task.task_type ≡ wait_until
    → get db.states (key_of_task task) ≡ some row
    → row.status ≡ wait_until_running
    → row.info.state_config ≡ none
    → wait_until_fails env task (prepared_row row) env.default_async_state_api_timeout ≡ true
    → take_task env true after task db ≡ (crashed, db, [])
unfolding take_task
take_task-crashes env task row after db type found status unconfigured fails =
    let panics = unconfigured_panics env task row db type found status unconfigured fails in
    let (tables, silent) = process_immediate_task-err env task db panic panics in
    elim tables [
      | inl same ↦ rw (panics, same, silent) refl
      | inr (visible, _, _) ↦ absurd (cc (type, visible))
    ]
