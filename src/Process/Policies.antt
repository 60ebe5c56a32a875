-- ===== src/Process/Policies.antt =====
-- The reuse policies of persistence/process/start_process.go, and StartProcess. `id` is the UUID
-- that the operation draws for a new process execution.
pub mod Started
pub mod Table
use xdb.Prelude.{
  ℕ, Bool, true, false, not, ◌||◌, List, [], ◌∷◌, Option, none, some, Error, Result, ok, err,
  unknown_policy, if◌then◌else◌, ◌==◌, is_some,
}
use xdb.DataModels.Enums.{ProcessExecutionStatus, terminated, is_running}
use xdb.DataModels.Infos.{Uuid}
use xdb.Database.Rows.{Db, ProcessExecutionRowForUpdate}
use xdb.Database.Tx.{Tx, Done, ◌>>=◌, ◌>>◌, pure, fail, get_now, Connection, AppAnswer, run_tx}
use xdb.Database.Statements.{
  select_latest_process_execution_for_update, select_process_execution,
  select_process_execution_for_update, update_process_execution,
  batch_update_async_state_executions_to_abort_running,
}
use xdb.Process.Common.{add_visibility_task_record_process_execution_status}
use xdb.Process.AppDatabase.{write_to_app_database, handle_initial_local_attributes_write, attempt}
use xdb.Process.Start.{
  ProcessIdReusePolicy, disallow_reuse, allow_if_no_running, allow_if_previous_exit_abnormally,
  terminate_if_running, other_policy, StartProcessRequest, StartProcessResponse, started, already,
  key_of, app_config, tables_of, attributes_of, policy_of, status_info, start_brand_new,
  start_after_previous, update_latest_and_insert_new_process_execution, insert_timeout_timer,
}

unfoldable pub disallow_if_found :
    StartProcessRequest → Uuid → Option Uuid → Tx StartProcessResponse
unfolding start_brand_new
disallow_if_found r id (some _) = pure already
disallow_if_found r id none = start_brand_new r id

-- applyDisallowReusePolicy
unfoldable pub apply_disallow_reuse_policy : StartProcessRequest → Uuid → Tx StartProcessResponse
unfolding select_latest_process_execution_for_update disallow_if_found
apply_disallow_reuse_policy r id = do
  found ← select_latest_process_execution_for_update (key_of r.request)
  disallow_if_found r id found

unfoldable pub allow_unless_running :
    StartProcessRequest → Uuid → Option Uuid → Tx StartProcessResponse
unfolding select_process_execution start_after_previous start_brand_new
allow_unless_running r id none = start_brand_new r id
allow_unless_running r id (some previous) = do
  row ← select_process_execution previous
  if is_running row.status then pure already else start_after_previous r id

-- applyAllowIfNoRunningPolicy
unfoldable pub apply_allow_if_no_running_policy :
    StartProcessRequest → Uuid → Tx StartProcessResponse
unfolding select_latest_process_execution_for_update allow_unless_running
apply_allow_if_no_running_policy r id = do
  found ← select_latest_process_execution_for_update (key_of r.request)
  allow_unless_running r id found

abbrev pub is_completed : ProcessExecutionStatus → Bool
is_completed ProcessExecutionStatus.completed = true
is_completed _ = false

unfoldable pub allow_if_abnormal :
    StartProcessRequest → Uuid → Option Uuid → Tx StartProcessResponse
unfolding select_process_execution start_after_previous start_brand_new
allow_if_abnormal r id none = start_brand_new r id
allow_if_abnormal r id (some previous) = do
  row ← select_process_execution previous
  if is_running row.status
      then pure already
      else if is_completed row.status
      then pure already
      else start_after_previous r id

-- applyAllowIfPreviousExitAbnormallyPolicy
unfoldable pub apply_allow_if_previous_exit_abnormally_policy :
    StartProcessRequest → Uuid → Tx StartProcessResponse
unfolding select_latest_process_execution_for_update allow_if_abnormal
apply_allow_if_previous_exit_abnormally_policy r id = do
  found ← select_latest_process_execution_for_update (key_of r.request)
  allow_if_abnormal r id found

-- The previous process execution is marked as terminated. The update's row leaves out the shard.
unfoldable pub terminate_previous : StartProcessRequest → ProcessExecutionRowForUpdate → Tx Done
unfolding update_process_execution add_visibility_task_record_process_execution_status
terminate_previous r row =
    if is_running row.status
    then (do
      update_process_execution (record row { shard_id = 0; status = terminated })
      now ← get_now
      add_visibility_task_record_process_execution_status r.new_task_shard_id
          (status_info r.request row.process_execution_id terminated none (some now)))
    else pure tt

unfoldable pub terminate_if_found :
    StartProcessRequest → Uuid → Option Uuid → Tx StartProcessResponse
unfolding start_brand_new select_process_execution_for_update terminate_previous
    update_latest_and_insert_new_process_execution
    batch_update_async_state_executions_to_abort_running insert_timeout_timer
terminate_if_found r id none = start_brand_new r id
terminate_if_found r id (some previous) = do
  row ← select_process_execution_for_update previous
  terminate_previous r row
  _ ← update_latest_and_insert_new_process_execution r id
  batch_update_async_state_executions_to_abort_running row.process_execution_id
  insert_timeout_timer r id
  pure (started id true)

-- applyTerminateIfRunningPolicy
unfoldable pub apply_terminate_if_running_policy :
    StartProcessRequest → Uuid → Tx StartProcessResponse
unfolding select_latest_process_execution_for_update terminate_if_found
apply_terminate_if_running_policy r id = do
  found ← select_latest_process_execution_for_update (key_of r.request)
  terminate_if_found r id found

-- The switch on the policy.
unfoldable pub apply_policy :
    ProcessIdReusePolicy → StartProcessRequest → Uuid → Tx StartProcessResponse
unfolding apply_disallow_reuse_policy apply_allow_if_no_running_policy
    apply_allow_if_previous_exit_abnormally_policy apply_terminate_if_running_policy
apply_policy disallow_reuse r id = apply_disallow_reuse_policy r id
apply_policy allow_if_no_running r id = apply_allow_if_no_running_policy r id
apply_policy allow_if_previous_exit_abnormally r id =
    apply_allow_if_previous_exit_abnormally_policy r id
apply_policy terminate_if_running r id = apply_terminate_if_running_policy r id
apply_policy other_policy r id = fail unknown_policy

unfoldable pub start_written : StartProcessRequest → Uuid → Option Error → Tx StartProcessResponse
unfolding apply_policy handle_initial_local_attributes_write
start_written r id (some x) =
    pure (record (started 0 false) { app_database_writing_error = some x })
start_written r id none = do
  resp ← apply_policy (policy_of r.process_start_config) r id
  handle_initial_local_attributes_write resp.process_execution_id
      (attributes_of r.process_start_config)
  pure resp

-- doStartProcessTx
unfoldable pub do_start_process_tx : StartProcessRequest → Uuid → Tx StartProcessResponse
unfolding attempt write_to_app_database start_written
do_start_process_tx r id = do
  failed ← attempt (write_to_app_database (tables_of (app_config r.process_start_config)))
  start_written r id failed

abbrev pub start_rolls_back : StartProcessResponse → Bool
start_rolls_back resp = resp.already_started || is_some resp.app_database_writing_error

-- StartProcess
unfoldable pub start_process :
    Connection → StartProcessRequest → Uuid → ℕ → AppAnswer → Db → Result StartProcessResponse × Db
unfolding run_tx do_start_process_tx
start_process c r id = run_tx c start_rolls_back (do_start_process_tx r id)
