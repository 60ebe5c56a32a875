-- ===== src/Process/Retries.antt =====
-- persistence/process/backoff_immediate_task.go and recover_from_state_execution_failure.go: what
-- happens to a state execution whose worker call failed.
pub mod RoundTrip
use xdb.Prelude.{
  ℕ, Bool, true, false, List, [], ◌∷◌, Option, none, some, Error, Result, ok, err,
  missing_backoff_info, if◌then◌else◌, GoString,
}
use xdb.DataModels.Enums.{StateExecutionStatus, worker_task_backoff}
use xdb.DataModels.StateIds.{StateExecutionId}
use xdb.DataModels.Sequences.{
  StateExecutionSequenceMaps, start_new_state_execution, complete_new_state_execution,
}
use xdb.DataModels.Infos.{
  Uuid, EncodedObject, AsyncStateConfig, StateExecutionFailure, AsyncStateExecutionInfo,
  WorkerApiType, WorkerTaskBackoffInfo, no_timer_info,
}
use xdb.Database.Rows.{
  Db, StateKey, ImmediateTaskRow, TimerTaskRowForInsert,
  AsyncStateExecutionRowForUpdateWithoutCommands, ProcessExecutionRowForUpdate,
}
use xdb.Database.Tx.{
  Tx, Done, ◌>>=◌, ◌>>◌, pure, fail, lift, get_now, Connection, AppAnswer, run_tx, always_commits,
}
use xdb.Database.Statements.{
  select_process_execution_for_update, update_process_execution,
  update_async_state_execution_without_commands,
}
use xdb.Database.Tasks.{insert_timer_task, delete_immediate_task}
use xdb.Process.Common.{from_int32, insert_async_state_execution, insert_immediate_task}

-- BackoffImmediateTaskRequest, with what it reads of Prep; the task is its row
pub record BackoffImmediateTaskRequest : Type 0 where
  pub task : ImmediateTaskRow
  pub status : StateExecutionStatus
  pub previous_version : ℕ
  pub last_failure_status : ℕ
  pub last_failure_details : GoString
  pub fire_timestamp_seconds : ℕ

-- CreateStateExecutionFailureBytesForBackoff
abbrev pub failure_of : ℕ → GoString → ℕ → ℕ → StateExecutionFailure
failure_of status details attempts now = record {
  status_code = status;
  details = details;
  completed_attempts = attempts;
  last_attempt_timestamp = now;
}

abbrev pub backoff_state :
    BackoffImmediateTaskRequest
    → WorkerTaskBackoffInfo
    → ℕ
    → AsyncStateExecutionRowForUpdateWithoutCommands
backoff_state r info now = record {
  key = (r.task.process_execution_id, (r.task.state_id, r.task.state_id_sequence));
  status = r.status;
  last_failure =
      some (failure_of r.last_failure_status r.last_failure_details info.completed_attempts now);
  previous_version = r.previous_version;
}

abbrev pub backoff_timer :
    BackoffImmediateTaskRequest → WorkerTaskBackoffInfo → TimerTaskRowForInsert
backoff_timer r info = record {
  shard_id = r.task.shard_id;
  fire_time_unix_seconds = r.fire_timestamp_seconds;
  task_type = worker_task_backoff;
  process_execution_id = r.task.process_execution_id;
  state_id = r.task.state_id;
  state_id_sequence = r.task.state_id_sequence;
  info = record no_timer_info {
    worker_task_backoff_info = some info;
    worker_task_type = some r.task.task_type;
  };
}

unfoldable pub backoff_with : BackoffImmediateTaskRequest → Option WorkerTaskBackoffInfo → Tx Done
unfolding update_async_state_execution_without_commands insert_timer_task delete_immediate_task
backoff_with r none = fail missing_backoff_info
backoff_with r (some info) = do
  now ← get_now
  update_async_state_execution_without_commands (backoff_state r info now)
  insert_timer_task (backoff_timer r info)
  delete_immediate_task r.task.shard_id r.task.task_sequence

-- doBackoffImmediateTaskTx
unfoldable pub do_backoff_immediate_task_tx : BackoffImmediateTaskRequest → Tx Done
unfolding backoff_with
do_backoff_immediate_task_tx r = backoff_with r r.task.info.worker_task_backoff_info

-- BackoffImmediateTask
unfoldable pub backoff_immediate_task :
    Connection → BackoffImmediateTaskRequest → ℕ → AppAnswer → Db → Result Done × Db
unfolding run_tx do_backoff_immediate_task_tx
backoff_immediate_task c r = run_tx c always_commits (do_backoff_immediate_task_tx r)

-- RecoverFromStateExecutionFailureRequest, with what it reads of Prepare
pub record RecoverFromStateExecutionFailureRequest : Type 0 where
  pub process_execution_id : Uuid
  pub previous_version : ℕ
  pub info : AsyncStateExecutionInfo
  pub source : StateExecutionId
  pub source_failed_state_api : WorkerApiType
  pub last_failure_status : ℕ
  pub last_failure_details : GoString
  pub last_failure_completed_attempts : ℕ
  pub destination_state_id : GoString
  pub destination_state_config : Option AsyncStateConfig
  pub destination_state_input : EncodedObject
  pub shard_id : ℕ

-- FromAsyncStateExecutionInfoToBytesForStateRecovery, as it is called: the source's state id
abbrev pub recovery_info : RecoverFromStateExecutionFailureRequest → AsyncStateExecutionInfo
recovery_info r = record r.info {
  recover_from_state_execution_id = some r.source.state_id;
  recover_from_api = some r.source_failed_state_api;
}

-- doRecoverFromStateExecutionFailureTx
unfoldable pub do_recover_from_state_execution_failure_tx :
    RecoverFromStateExecutionFailureRequest → Tx Done
unfolding select_process_execution_for_update update_async_state_execution_without_commands
    complete_new_state_execution start_new_state_execution insert_async_state_execution
    insert_immediate_task update_process_execution
do_recover_from_state_execution_failure_tx r = do
  row ← select_process_execution_for_update r.process_execution_id
  now ← get_now
  update_async_state_execution_without_commands (record {
    key = (r.process_execution_id, (r.source.state_id, r.source.state_id_sequence));
    status = StateExecutionStatus.failed;
    last_failure = some (
        failure_of r.last_failure_status r.last_failure_details r.last_failure_completed_attempts
          now);
    previous_version = r.previous_version;
  })
  maps ← lift (
      complete_new_state_execution row.state_execution_sequence_maps r.source.state_id
        (from_int32 r.source.state_id_sequence))
  let begun = start_new_state_execution maps r.destination_state_id
  insert_async_state_execution r.process_execution_id r.destination_state_id begun.1
      r.destination_state_config r.destination_state_input (recovery_info r)
  insert_immediate_task r.process_execution_id r.destination_state_id begun.1
      r.destination_state_config r.shard_id
  update_process_execution (record row { state_execution_sequence_maps = begun.0 })

-- RecoverFromStateExecutionFailure
unfoldable pub recover_from_state_execution_failure :
    Connection → RecoverFromStateExecutionFailureRequest → ℕ → AppAnswer → Db → Result Done × Db
unfolding run_tx do_recover_from_state_execution_failure_tx
recover_from_state_execution_failure c r =
    run_tx c always_commits (do_recover_from_state_execution_failure_tx r)
