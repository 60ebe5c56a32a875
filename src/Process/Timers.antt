-- ===== src/Process/Timers.antt =====
-- The operations on a timer task of persistence/process: process_timer_task_for_process_timeout.go,
-- process_timer_task_for_timer_command.go and convert_timer_task_to_immediate_task.go.
pub mod Firing
pub mod Remaining
use xdb.Prelude.{
  ℕ, Bool, true, false, not, List, [], ◌∷◌, Option, none, some, Result, ok, err, process_not_exists,
  panic, if◌then◌else◌, GoString, nat_key, string_key, pair_key,
}
use xdb.DataModels.Enums.{
  ProcessExecutionStatus, StateExecutionStatus, wait_until_waiting, is_running, ImmediateTaskType,
}
use xdb.DataModels.LocalQueues.{StateExecutionLocalQueues}
use xdb.DataModels.Infos.{CommandResults, no_task_info}
use xdb.Database.Rows.{
  Db, StateKey, TimerTaskRow, ProcessExecutionRow, ProcessExecutionRowForUpdate,
  AsyncStateExecutionRowForUpdate,
}
use xdb.Database.Tx.{
  Tx, Done, ◌>>=◌, ◌>>◌, pure, fail, Connection, AppAnswer, run_tx, always_commits,
}
use xdb.Database.Statements.{
  select_process_execution, select_process_execution_for_update, update_process_execution,
  select_async_state_execution_for_update, update_async_state_execution,
}
use xdb.Database.Tasks.{insert_immediate_task_row, delete_timer_task}
use xdb.Process.Common.{
  update_command_results_with_fired_timer_command, has_completed_wait_until_waiting,
  update_when_completed_wait_until_waiting,
}
use xdb.Process.Stop.{StopProcessResponse, do_stop_process_tx}

-- ProcessTimerTaskResponse; a timer task is its row
pub record ProcessTimerTaskResponse : Type 0 where
  pub has_new_immediate_task : Bool

unfoldable pub delete_task : TimerTaskRow → Tx Done
unfolding delete_timer_task
delete_task t = delete_timer_task t.shard_id t.fire_time_unix_seconds t.task_sequence

unfoldable pub stop_by_timeout : TimerTaskRow → ProcessExecutionRow → Tx Done
unfolding do_stop_process_tx
stop_by_timeout t row =
    if is_running row.status
    then (do
      resp ←
          do_stop_process_tx row.namespace row.process_id t.shard_id ProcessExecutionStatus.timeout
      if resp.not_exists then fail process_not_exists else pure tt)
    else pure tt

-- doProcessTimerTaskForProcessTimeoutTx
unfoldable pub do_process_timer_task_for_process_timeout_tx :
    TimerTaskRow → Tx ProcessTimerTaskResponse
unfolding select_process_execution stop_by_timeout delete_task
do_process_timer_task_for_process_timeout_tx t = do
  row ← select_process_execution t.process_execution_id
  stop_by_timeout t row
  delete_task t
  pure (record { has_new_immediate_task = false })

-- ProcessTimerTaskForProcessTimeout
unfoldable pub process_timer_task_for_process_timeout :
    Connection → TimerTaskRow → ℕ → AppAnswer → Db → Result ProcessTimerTaskResponse × Db
unfolding run_tx do_process_timer_task_for_process_timeout_tx
process_timer_task_for_process_timeout c t =
    run_tx c always_commits (do_process_timer_task_for_process_timeout_tx t)

abbrev pub is_waiting : StateExecutionStatus → Bool
is_waiting wait_until_waiting = true
is_waiting _ = false

abbrev pub key_of_task : TimerTaskRow → StateKey
key_of_task t = (t.process_execution_id, (t.state_id, t.state_id_sequence))

-- What the completion of the waiting changes, when the results complete it.
unfoldable pub complete_if :
    Bool
    → ℕ
    → StateExecutionLocalQueues
    → AsyncStateExecutionRowForUpdate
    → Tx (StateExecutionLocalQueues × AsyncStateExecutionRowForUpdate)
unfolding update_when_completed_wait_until_waiting
complete_if b shard queues row =
    if b then update_when_completed_wait_until_waiting shard queues row else pure (queues, row)

unfoldable pub fire_timer_command :
    TimerTaskRow
    → ProcessExecutionRowForUpdate
    → AsyncStateExecutionRowForUpdate
    → Tx ProcessTimerTaskResponse
unfolding has_completed_wait_until_waiting complete_if update_async_state_execution
    update_process_execution delete_task
fire_timer_command t process row = do
  let results =
      update_command_results_with_fired_timer_command row.wait_until_command_results
        t.info.timer_command_index
  let completed = has_completed_wait_until_waiting row.wait_until_commands results
  changed ←
      complete_if completed t.shard_id process.state_execution_local_queues
        (record row { last_failure = none })
  update_async_state_execution (record changed.1 { wait_until_command_results = results })
  update_process_execution (record process { state_execution_local_queues = changed.0 })
  delete_task t
  pure (record { has_new_immediate_task = completed })

-- doProcessTimerTaskForTimerCommandTx
unfoldable pub do_process_timer_task_for_timer_command_tx :
    TimerTaskRow → Tx ProcessTimerTaskResponse
unfolding select_process_execution_for_update select_async_state_execution_for_update
    fire_timer_command
do_process_timer_task_for_timer_command_tx t = do
  process ← select_process_execution_for_update t.process_execution_id
  row ← select_async_state_execution_for_update (key_of_task t)
  if is_waiting row.status
      then fire_timer_command t process row
      else pure (record { has_new_immediate_task = false })

-- ProcessTimerTaskForTimerCommand
unfoldable pub process_timer_task_for_timer_command :
    Connection → TimerTaskRow → ℕ → AppAnswer → Db → Result ProcessTimerTaskResponse × Db
unfolding run_tx do_process_timer_task_for_timer_command_tx
process_timer_task_for_timer_command c t =
    run_tx c always_commits (do_process_timer_task_for_timer_command_tx t)

unfoldable pub convert_as : TimerTaskRow → Option ImmediateTaskType → Tx Done
unfolding insert_immediate_task_row delete_task
convert_as t none = fail panic
convert_as t (some type) = do
  insert_immediate_task_row (record {
    shard_id = t.shard_id;
    task_type = type;
    process_execution_id = t.process_execution_id;
    state_id = t.state_id;
    state_id_sequence = t.state_id_sequence;
    info = record no_task_info { worker_task_backoff_info = t.info.worker_task_backoff_info };
  })
  delete_task t

-- doConvertTimerTaskToImmediateTaskTx; a missing WorkerTaskType is a nil pointer that is read
unfoldable pub do_convert_timer_task_to_immediate_task_tx : TimerTaskRow → Tx Done
unfolding convert_as
do_convert_timer_task_to_immediate_task_tx t = convert_as t t.info.worker_task_type

-- ConvertTimerTaskToImmediateTask; its response says that there is a new immediate task
unfoldable pub convert_timer_task_to_immediate_task :
    Connection → TimerTaskRow → ℕ → AppAnswer → Db → Result Done × Db
unfolding run_tx do_convert_timer_task_to_immediate_task_tx
convert_timer_task_to_immediate_task c t =
    run_tx c always_commits (do_convert_timer_task_to_immediate_task_tx t)
