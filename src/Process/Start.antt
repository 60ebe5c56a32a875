-- ===== src/Process/Start.antt =====
-- persistence/process/start_process.go.
pub mod Begun
pub mod Inserted
use xdb.Prelude.{
  ℕ, Bool, true, false, not, ◌||◌, List, [], ◌∷◌, Option, none, some, Error, Result, ok, err,
  unknown_policy, if◌then◌else◌, ◌==◌, is_some, GoString, nat_key, string_key, pair_key,
}
use xdb.DataModels.Enums.{ProcessExecutionStatus, running, terminated, is_running, process_timeout}
use xdb.DataModels.Sequences.{
  StateExecutionSequenceMaps, new_state_execution_sequence_maps, start_new_state_execution,
}
use xdb.DataModels.LocalQueues.{new_state_execution_local_queues}
use xdb.DataModels.Infos.{
  Uuid, EncodedObject, from_encoded_object, AsyncStateConfig, AsyncStateExecutionInfo,
  ProcessExecutionInfo, VisibilityInfo, no_timer_info,
}
use xdb.Database.Rows.{Db, ProcessExecutionRow, ProcessExecutionRowForUpdate}
use xdb.Database.Tx.{
  Tx, Done, ◌>>=◌, ◌>>◌, pure, fail, lift, get_now, Connection, AppAnswer, run_tx,
}
use xdb.Database.Statements.{
  insert_latest_process_execution, select_latest_process_execution_for_update,
  update_latest_process_execution, insert_process_execution_row, select_process_execution,
  select_process_execution_for_update, update_process_execution,
  batch_update_async_state_executions_to_abort_running,
}
use xdb.Database.Tasks.{insert_timer_task}
use xdb.Process.Common.{
  insert_async_state_execution, insert_immediate_task,
  add_visibility_task_record_process_execution_status,
}
use xdb.Process.AppDatabase.{
  TableConfig, KeyValue, write_to_app_database, get_internal_app_database_config,
  handle_initial_local_attributes_write, attempt,
}

-- xcapi.ProcessIdReusePolicy; `other_policy` is any other string
pub data ProcessIdReusePolicy : Type 0 where
  disallow_reuse allow_if_no_running : ProcessIdReusePolicy
  allow_if_previous_exit_abnormally terminate_if_running other_policy : ProcessIdReusePolicy

-- xcapi.ProcessStartConfig and ProcessExecutionStartRequest
pub record ProcessStartConfig : Type 0 where
  pub timeout_seconds : ℕ
  pub id_reuse_policy : Option ProcessIdReusePolicy
  pub app_database_config : Option (List TableConfig)
  pub initial_attributes : List KeyValue

pub record ProcessExecutionStartRequest : Type 0 where
  pub namespace : GoString
  pub process_id : GoString
  pub process_type : GoString
  pub worker_url : GoString
  pub start_state_id : Option GoString
  pub start_state_input : Option EncodedObject
  pub start_state_config : Option AsyncStateConfig
  pub process_start_config : Option ProcessStartConfig

-- StartProcessRequest and StartProcessResponse
pub record StartProcessRequest : Type 0 where
  pub request : ProcessExecutionStartRequest
  pub open request use *
  pub new_task_shard_id : ℕ
  pub timeout_time_unix_seconds : ℕ

pub record StartProcessResponse : Type 0 where
  pub process_execution_id : Uuid
  pub already_started : Bool
  pub has_new_immediate_task : Bool
  pub app_database_writing_error : Option Error

-- FailedAtWritingAppDatabase stands with its error.
abbrev pub started : Uuid → Bool → StartProcessResponse
started id has_new = record {
  process_execution_id = id;
  already_started = false;
  has_new_immediate_task = has_new;
  app_database_writing_error = none;
}

abbrev pub already : StartProcessResponse
already = record (started 0 false) { already_started = true }

abbrev pub key_of : ProcessExecutionStartRequest → GoString × GoString
key_of r = (r.namespace, r.process_id)

abbrev pub app_config : Option ProcessStartConfig → Option (List TableConfig)
app_config none = none
app_config (some c) = c.app_database_config

abbrev pub tables_of : Option (List TableConfig) → List TableConfig
tables_of none = []
tables_of (some ts) = ts

abbrev pub attributes_of : Option ProcessStartConfig → List KeyValue
attributes_of none = []
attributes_of (some c) = c.initial_attributes

abbrev pub timeout_of : Option ProcessStartConfig → ℕ
timeout_of none = 0
timeout_of (some c) = c.timeout_seconds

abbrev pub policy_or_default : Option ProcessIdReusePolicy → ProcessIdReusePolicy
policy_or_default none = allow_if_no_running
policy_or_default (some p) = p

abbrev pub policy_of : Option ProcessStartConfig → ProcessIdReusePolicy
policy_of none = allow_if_no_running
policy_of (some c) = policy_or_default c.id_reuse_policy

-- FromStartRequestToStateInfoBytes and FromStartRequestToProcessInfoBytes
abbrev pub start_state_info : ProcessExecutionStartRequest → AsyncStateExecutionInfo
start_state_info r = record {
  namespace = r.namespace;
  process_id = r.process_id;
  process_type = r.process_type;
  worker_url = r.worker_url;
  state_config = r.start_state_config;
  recover_from_state_execution_id = none;
  recover_from_api = none;
  app_database_config = get_internal_app_database_config (app_config r.process_start_config);
}

abbrev pub process_info : ProcessExecutionStartRequest → ProcessExecutionInfo
process_info r = record {
  process_type = r.process_type;
  worker_url = r.worker_url;
  app_database_config = get_internal_app_database_config (app_config r.process_start_config);
}

abbrev pub status_info :
    ProcessExecutionStartRequest
    → Uuid
    → ProcessExecutionStatus
    → Option ℕ
    → Option ℕ
    → VisibilityInfo
status_info r id status start close = record {
  namespace = r.namespace;
  process_id = r.process_id;
  process_type = r.process_type;
  process_execution_id = id;
  status = status;
  start_time = start;
  close_time = close;
}

-- The start state: the sequence maps after it. The task names the sequence 1.
unfoldable pub insert_start_state :
    StartProcessRequest → Uuid → Option GoString → Tx StateExecutionSequenceMaps
unfolding start_new_state_execution insert_async_state_execution insert_immediate_task
insert_start_state r id none = pure new_state_execution_sequence_maps
insert_start_state r id (some state_id) = do
  let begun = start_new_state_execution new_state_execution_sequence_maps state_id
  insert_async_state_execution id state_id begun.1 r.start_state_config
      (from_encoded_object r.start_state_input) (start_state_info r.request)
  insert_immediate_task id state_id 1 r.start_state_config r.new_task_shard_id
  pure begun.0

abbrev pub new_process_row :
    StartProcessRequest → StateExecutionSequenceMaps → ℕ → ProcessExecutionRow
new_process_row r maps now = record {
  shard_id = r.new_task_shard_id;
  status = running;
  history_event_id_sequence = 0;
  state_execution_sequence_maps = maps;
  state_execution_local_queues = new_state_execution_local_queues;
  namespace = r.namespace;
  process_id = r.process_id;
  start_time = now;
  timeout_seconds = timeout_of r.process_start_config;
  info = process_info r.request;
  graceful_complete_requested = false;
}

-- insertProcessExecution
unfoldable pub insert_process_execution : StartProcessRequest → Uuid → Tx Bool
unfolding insert_start_state insert_process_execution_row
    add_visibility_task_record_process_execution_status
insert_process_execution r id = do
  maps ← insert_start_state r id r.start_state_id
  now ← get_now
  insert_process_execution_row id (new_process_row r maps now)
  add_visibility_task_record_process_execution_status r.new_task_shard_id
      (status_info r.request id running (some now) none)
  pure true

-- insertBrandNewLatestProcessExecution; `id` is the UUID that it draws
unfoldable pub insert_brand_new_latest_process_execution : StartProcessRequest → Uuid → Tx Bool
unfolding insert_latest_process_execution insert_process_execution
insert_brand_new_latest_process_execution r id = do
  insert_latest_process_execution (key_of r.request) id
  insert_process_execution r id

-- updateLatestAndInsertNewProcessExecution
unfoldable pub update_latest_and_insert_new_process_execution : StartProcessRequest → Uuid → Tx Bool
unfolding update_latest_process_execution insert_process_execution
update_latest_and_insert_new_process_execution r id = do
  update_latest_process_execution (key_of r.request) id
  insert_process_execution r id

-- The timer of the process timeout, which every policy inserts in the same way.
unfoldable pub insert_timeout_timer : StartProcessRequest → Uuid → Tx Done
unfolding insert_timer_task
insert_timeout_timer r id =
    if r.timeout_time_unix_seconds == 0
    then pure tt
    else insert_timer_task (record {
      shard_id = r.new_task_shard_id;
      fire_time_unix_seconds = r.timeout_time_unix_seconds;
      task_type = process_timeout;
      process_execution_id = id;
      state_id = [];
      state_id_sequence = 0;
      info = no_timer_info;
    })

unfoldable pub start_brand_new : StartProcessRequest → Uuid → Tx StartProcessResponse
unfolding insert_brand_new_latest_process_execution insert_timeout_timer
start_brand_new r id = do
  has_new ← insert_brand_new_latest_process_execution r id
  insert_timeout_timer r id
  pure (started id has_new)

unfoldable pub start_after_previous : StartProcessRequest → Uuid → Tx StartProcessResponse
unfolding update_latest_and_insert_new_process_execution insert_timeout_timer
start_after_previous r id = do
  has_new ← update_latest_and_insert_new_process_execution r id
  insert_timeout_timer r id
  pure (started id has_new)
