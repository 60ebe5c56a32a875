-- ===== src/Process/Stop.antt =====
-- persistence/process/stop_process.go.
pub mod Fencing
pub mod Stopped
pub mod Stopping
use xdb.Prelude.{
  ℕ, Bool, true, false, not, List, [], ◌∷◌, Option, none, some, Result, ok, err, if◌then◌else◌,
  GoString,
}
use xdb.DataModels.Enums.{ProcessExecutionStatus, is_running}
use xdb.DataModels.Infos.{Uuid, VisibilityInfo}
use xdb.Database.Rows.{Db, ProcessExecutionRow, ProcessExecutionRowForUpdate}
use xdb.Database.Tx.{
  Tx, Done, ◌>>=◌, ◌>>◌, pure, get_now, Connection, AppAnswer, run_tx, always_commits,
}
use xdb.Database.Statements.{select_process_execution_for_update, update_process_execution}
use xdb.Process.Common.{add_visibility_task_record_process_execution_status}
use xdb.Process.Publish.{latest_in_session}
use xdb.Process.Decision.{nothing_pending, abort_if}

-- xcapi.ProcessExecutionStopType
pub data StopType : Type 0 where
  terminate fail_type : StopType

-- StopProcessRequest and StopProcessResponse
pub record StopProcessRequest : Type 0 where
  pub namespace : GoString
  pub process_id : GoString
  pub process_stop_type : StopType
  pub new_task_shard_id : ℕ

pub record StopProcessResponse : Type 0 where
  pub not_exists : Bool

abbrev pub exists_answer : StopProcessResponse
exists_answer = record { not_exists = false }

abbrev pub stopped_row :
    ProcessExecutionStatus → ProcessExecutionRowForUpdate → ProcessExecutionRowForUpdate
stopped_row status row = record row {
  status = status;
  state_execution_sequence_maps = record row.state_execution_sequence_maps {
    pending_execution_map = [];
  };
}

abbrev pub stop_info :
    GoString → GoString → Uuid → ProcessExecutionRow → ProcessExecutionStatus → ℕ → VisibilityInfo
stop_info namespace process_id id current status now = record {
  namespace = namespace;
  process_id = process_id;
  process_type = current.info.process_type;
  process_execution_id = id;
  status = status;
  start_time = none;
  close_time = some now;
}

unfoldable pub stop_running :
    GoString
    → GoString
    → ℕ
    → ProcessExecutionStatus
    → Uuid
    → ProcessExecutionRow
    → ProcessExecutionRowForUpdate
    → Tx StopProcessResponse
unfolding update_process_execution abort_if add_visibility_task_record_process_execution_status
stop_running namespace process_id shard status id current row = do
  update_process_execution (stopped_row status row)
  abort_if (not (nothing_pending row.state_execution_sequence_maps)) id
  now ← get_now
  add_visibility_task_record_process_execution_status shard
      (stop_info namespace process_id id current status now)
  pure exists_answer

unfoldable pub stop_found :
    GoString
    → GoString
    → ℕ
    → ProcessExecutionStatus
    → Option (Uuid × ProcessExecutionRow)
    → Tx StopProcessResponse
unfolding select_process_execution_for_update stop_running
stop_found namespace process_id shard status none = pure (record { not_exists = true })
stop_found namespace process_id shard status (some (id, current)) = do
  row ← select_process_execution_for_update id
  if is_running row.status
      then stop_running namespace process_id shard status id current row
      else pure exists_answer

-- doStopProcessTx
unfoldable pub do_stop_process_tx :
    GoString → GoString → ℕ → ProcessExecutionStatus → Tx StopProcessResponse
unfolding latest_in_session stop_found
do_stop_process_tx namespace process_id shard status = do
  latest ← latest_in_session (namespace, process_id)
  stop_found namespace process_id shard status latest

abbrev pub stop_status : StopType → ProcessExecutionStatus
stop_status fail_type = ProcessExecutionStatus.failed
stop_status terminate = ProcessExecutionStatus.terminated

-- StopProcess
unfoldable pub stop_process :
    Connection → StopProcessRequest → ℕ → AppAnswer → Db → Result StopProcessResponse × Db
unfolding run_tx do_stop_process_tx
stop_process c r = run_tx c always_commits (
    do_stop_process_tx r.namespace r.process_id r.new_task_shard_id
      (stop_status r.process_stop_type))
