-- ===== src/Process/Rpc.antt =====
-- persistence/process/update_process_execution_for_rpc.go.
use xdb.Prelude.{
  ℕ, Bool, true, false, ◌||◌, List, Option, none, some, Error, Result, is_some, if◌then◌else◌,
  GoString,
}
use xdb.DataModels.Enums.{is_running}
use xdb.DataModels.Infos.{Uuid, StateDecision, AppDatabaseConfig}
use xdb.Database.Rows.{Db, ProcessExecutionRowForUpdate}
use xdb.Database.Tx.{Tx, ◌>>=◌, ◌>>◌, pure, Connection, AppAnswer, run_tx}
use xdb.Database.Statements.{select_process_execution_for_update, update_process_execution}
use xdb.Process.AppDatabase.{TableWrite, write_to_app_database_if_needed, attempt}
use xdb.Process.Publish.{LocalQueueMessage, publish_to_local_queue}
use xdb.Process.Decision.{HandleStateDecisionRequest, handle_state_decision}
use xdb.Process.Execute.{decided_row}

-- UpdateProcessExecutionForRpcRequest and its response
pub record UpdateProcessExecutionForRpcRequest : Type 0 where
  pub namespace : GoString
  pub process_id : GoString
  pub process_type : GoString
  pub process_execution_id : Uuid
  pub state_decision : StateDecision
  pub publish : List LocalQueueMessage
  pub app_database_config : Option AppDatabaseConfig
  pub app_database_write : List TableWrite
  pub worker_url : GoString
  pub task_shard_id : ℕ

pub record UpdateProcessExecutionForRpcResponse : Type 0 where
  pub has_new_immediate_task : Bool
  pub process_not_exists : Bool
  pub writing_app_database_error : Option Error

abbrev pub rpc_answer : Bool → UpdateProcessExecutionForRpcResponse
rpc_answer has_new = record {
  has_new_immediate_task = has_new;
  process_not_exists = false;
  writing_app_database_error = none;
}

abbrev pub rpc_decision_request :
    UpdateProcessExecutionForRpcRequest → ProcessExecutionRowForUpdate → HandleStateDecisionRequest
rpc_decision_request r row = record {
  namespace = r.namespace;
  process_id = r.process_id;
  process_type = r.process_type;
  process_execution_id = r.process_execution_id;
  state_decision = r.state_decision;
  app_database_config = r.app_database_config;
  worker_url = r.worker_url;
  sequence_maps = row.state_execution_sequence_maps;
  graceful_complete_requested = row.graceful_complete_requested;
  status = row.status;
  task_shard_id = r.task_shard_id;
}

unfoldable pub update_written :
    (ℕ → Uuid)
    → UpdateProcessExecutionForRpcRequest
    → ProcessExecutionRowForUpdate
    → Option Error
    → Tx UpdateProcessExecutionForRpcResponse
unfolding handle_state_decision update_process_execution publish_to_local_queue
update_written drawn r row (some x) =
    pure (record (rpc_answer false) { writing_app_database_error = some x })
update_written drawn r row none = do
  decision ← handle_state_decision (rpc_decision_request r row)
  update_process_execution (decided_row row decision)
  published ← publish_to_local_queue drawn r.process_execution_id row.shard_id r.publish
  pure (rpc_answer (decision.has_new_immediate_task || published))

-- doUpdateProcessExecutionForRpcTx
unfoldable pub do_update_process_execution_for_rpc_tx :
    (ℕ → Uuid) → UpdateProcessExecutionForRpcRequest → Tx UpdateProcessExecutionForRpcResponse
unfolding select_process_execution_for_update attempt write_to_app_database_if_needed update_written
do_update_process_execution_for_rpc_tx drawn r = do
  row ← select_process_execution_for_update r.process_execution_id
  if is_running row.status
      then (do
        failed ←
            attempt (write_to_app_database_if_needed r.app_database_config r.app_database_write)
        update_written drawn r row failed)
      else pure (record (rpc_answer false) { process_not_exists = true })

abbrev pub rpc_rolls_back : UpdateProcessExecutionForRpcResponse → Bool
rpc_rolls_back resp = is_some resp.writing_app_database_error

-- UpdateProcessExecutionForRpc
unfoldable pub update_process_execution_for_rpc :
    Connection
    → (ℕ → Uuid)
    → UpdateProcessExecutionForRpcRequest
    → ℕ
    → AppAnswer
    → Db
    → Result UpdateProcessExecutionForRpcResponse × Db
unfolding run_tx do_update_process_execution_for_rpc_tx
update_process_execution_for_rpc c drawn r =
    run_tx c rpc_rolls_back (do_update_process_execution_for_rpc_tx drawn r)
