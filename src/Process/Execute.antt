-- ===== src/Process/Execute.antt =====
-- persistence/process/complete_execute.go.
use xdb.Prelude.{
  ℕ, Bool, true, false, ◌||◌, List, Option, none, some, Error, Result, is_some, if◌then◌else◌,
}
use xdb.DataModels.Enums.{ProcessExecutionStatus, StateExecutionStatus, is_running}
use xdb.DataModels.Sequences.{StateExecutionSequenceMaps, complete_new_state_execution}
use xdb.DataModels.Infos.{Uuid, StateDecision, AppDatabaseConfig, AsyncStateExecutionInfo}
use xdb.Database.Rows.{
  Db, StateKey, ProcessExecutionRowForUpdate, AsyncStateExecutionRowForUpdateWithoutCommands,
}
use xdb.Database.Tx.{Tx, ◌>>=◌, ◌>>◌, pure, lift, get_now, Connection, AppAnswer, run_tx}
use xdb.Database.Statements.{
  select_process_execution_for_update, update_process_execution,
  update_async_state_execution_without_commands,
}
use xdb.Database.Tasks.{delete_immediate_task}
use xdb.Process.Common.{from_int32, add_visibility_task_record_process_execution_status}
use xdb.Process.AppDatabase.{
  TableWrite, KeyValue, write_to_app_database_if_needed, update_local_attributes_if_needed, attempt,
}
use xdb.Process.Publish.{LocalQueueMessage, publish_to_local_queue}
use xdb.Process.Decision.{
  HandleStateDecisionRequest, HandleStateDecisionResponse, handle_state_decision,
}

-- CompleteExecuteExecutionRequest, with what it reads of Prepare, and its response
pub record CompleteExecuteExecutionRequest : Type 0 where
  pub key : StateKey
  pub previous_version : ℕ
  pub info : AsyncStateExecutionInfo
  pub state_decision : StateDecision
  pub publish : List LocalQueueMessage
  pub app_database_config : Option AppDatabaseConfig
  pub write_app_database : List TableWrite
  pub update_local_attributes : List KeyValue
  pub task_shard_id : ℕ
  pub task_sequence : ℕ

pub record CompleteExecuteExecutionResponse : Type 0 where
  pub has_new_immediate_task : Bool
  pub process_status : ProcessExecutionStatus
  pub app_database_writing_error : Option Error

abbrev pub decision_request :
    CompleteExecuteExecutionRequest
    → ProcessExecutionRowForUpdate
    → StateExecutionSequenceMaps
    → HandleStateDecisionRequest
decision_request r row maps = record {
  namespace = r.info.namespace;
  process_id = r.info.process_id;
  process_type = r.info.process_type;
  process_execution_id = r.key.0;
  state_decision = r.state_decision;
  app_database_config = r.app_database_config;
  worker_url = r.info.worker_url;
  sequence_maps = maps;
  graceful_complete_requested = row.graceful_complete_requested;
  status = row.status;
  task_shard_id = r.task_shard_id;
}

abbrev pub decided_row :
    ProcessExecutionRowForUpdate → HandleStateDecisionResponse → ProcessExecutionRowForUpdate
decided_row row resp = record row {
  graceful_complete_requested = resp.new_graceful_complete_requested;
  status = resp.new_status;
  state_execution_sequence_maps = resp.new_sequence_maps;
}

-- Step 5: the status of a process execution that ends is recorded; whether it was.
unfoldable pub record_if_ended : CompleteExecuteExecutionRequest → ProcessExecutionStatus → Tx Bool
unfolding add_visibility_task_record_process_execution_status
record_if_ended r status = if is_running status then pure false else (do
  now ← get_now
  add_visibility_task_record_process_execution_status r.task_shard_id (record {
    namespace = r.info.namespace;
    process_id = r.info.process_id;
    process_type = r.info.process_type;
    process_execution_id = r.key.0;
    status = status;
    start_time = none;
    close_time = some now;
  })
  pure true)

-- Step 2
abbrev pub completed_row :
    CompleteExecuteExecutionRequest → AsyncStateExecutionRowForUpdateWithoutCommands
completed_row r = record {
  key = r.key;
  status = StateExecutionStatus.completed;
  last_failure = none;
  previous_version = r.previous_version;
}

-- Steps 3 to 6
unfoldable pub complete_decided :
    (ℕ → Uuid)
    → CompleteExecuteExecutionRequest
    → ProcessExecutionRowForUpdate
    → Tx CompleteExecuteExecutionResponse
unfolding complete_new_state_execution handle_state_decision update_process_execution
    publish_to_local_queue record_if_ended delete_immediate_task
complete_decided drawn r row = do
  maps ← lift (
      complete_new_state_execution row.state_execution_sequence_maps r.key.1.0
        (from_int32 r.key.1.1))
  decision ← handle_state_decision (decision_request r row maps)
  update_process_execution (decided_row row decision)
  published ← publish_to_local_queue drawn r.key.0 row.shard_id r.publish
  recorded ← record_if_ended r decision.new_status
  delete_immediate_task r.task_shard_id r.task_sequence
  pure (record {
    has_new_immediate_task = decision.has_new_immediate_task || published || recorded;
    process_status = decision.new_status;
    app_database_writing_error = none;
  })

-- What follows once the application's tables are written.
unfoldable pub complete_written :
    (ℕ → Uuid)
    → CompleteExecuteExecutionRequest
    → ProcessExecutionRowForUpdate
    → Tx CompleteExecuteExecutionResponse
unfolding update_local_attributes_if_needed update_async_state_execution_without_commands
    complete_decided
complete_written drawn r row = do
  update_local_attributes_if_needed r.key.0 r.update_local_attributes
  update_async_state_execution_without_commands (completed_row r)
  complete_decided drawn r row

unfoldable pub complete_if_written :
    (ℕ → Uuid)
    → CompleteExecuteExecutionRequest
    → ProcessExecutionRowForUpdate
    → Option Error
    → Tx CompleteExecuteExecutionResponse
unfolding complete_written
complete_if_written drawn r row none = complete_written drawn r row
complete_if_written drawn r row (some x) = pure (record {
  has_new_immediate_task = false;
  process_status = ProcessExecutionStatus.undefined;
  app_database_writing_error = some x;
})

-- doCompleteExecuteExecutionTx; `drawn` are the UUIDs for the published messages
unfoldable pub do_complete_execute_execution_tx :
    (ℕ → Uuid) → CompleteExecuteExecutionRequest → Tx CompleteExecuteExecutionResponse
unfolding select_process_execution_for_update attempt write_to_app_database_if_needed
    complete_if_written
do_complete_execute_execution_tx drawn r = do
  row ← select_process_execution_for_update r.key.0
  failed ← attempt (write_to_app_database_if_needed r.app_database_config r.write_app_database)
  complete_if_written drawn r row failed

abbrev pub execute_rolls_back : CompleteExecuteExecutionResponse → Bool
execute_rolls_back resp = is_some resp.app_database_writing_error

-- CompleteExecuteExecution
unfoldable pub complete_execute_execution :
    Connection
    → (ℕ → Uuid)
    → CompleteExecuteExecutionRequest
    → ℕ
    → AppAnswer
    → Db
    → Result CompleteExecuteExecutionResponse × Db
unfolding run_tx do_complete_execute_execution_tx
complete_execute_execution c drawn r =
    run_tx c execute_rolls_back (do_complete_execute_execution_tx drawn r)
