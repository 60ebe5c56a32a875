-- ===== src/Database/Rows.antt =====
-- The rows of extensions/data_models_row.go and the tables of xcherry_sys_schema.sql, each under
-- its primary key. Task tables are lists in the order of insertion, and a bigserial column is a
-- counter.
use xdb.Prelude.{ℕ, Bool, List, [], Option, GoMap, GoString, nat_key, string_key, pair_key}
use xdb.DataModels.Enums.{
  ProcessExecutionStatus, StateExecutionStatus, ImmediateTaskType, TimerTaskType,
}
use xdb.DataModels.Sequences.{StateExecutionSequenceMaps}
use xdb.DataModels.LocalQueues.{StateExecutionLocalQueues}
use xdb.DataModels.Infos.{
  Uuid, EncodedObject, CommandRequest, CommandResults, ProcessExecutionInfo,
  AsyncStateExecutionInfo, StateExecutionFailure, ImmediateTaskInfo, TimerTaskInfo, Columns,
}

pub record ProcessExecutionRow : Type 0 where
  pub shard_id : ℕ
  pub status : ProcessExecutionStatus
  pub history_event_id_sequence : ℕ
  pub state_execution_sequence_maps : StateExecutionSequenceMaps
  pub state_execution_local_queues : StateExecutionLocalQueues
  pub namespace : GoString
  pub process_id : GoString
  pub start_time : ℕ
  pub timeout_seconds : ℕ
  pub info : ProcessExecutionInfo
  pub graceful_complete_requested : Bool

pub record ProcessExecutionRowForUpdate : Type 0 where
  pub process_execution_id : Uuid
  pub shard_id : ℕ
  pub status : ProcessExecutionStatus
  pub history_event_id_sequence : ℕ
  pub state_execution_sequence_maps : StateExecutionSequenceMaps
  pub state_execution_local_queues : StateExecutionLocalQueues
  pub graceful_complete_requested : Bool

-- (process_execution_id, (state_id, state_id_sequence))
abbrev pub StateKey : Type 0
StateKey = Uuid × (GoString × ℕ)

pub record AsyncStateExecutionRow : Type 0 where
  pub version : ℕ
  pub status : StateExecutionStatus
  pub wait_until_commands : CommandRequest
  pub wait_until_command_results : CommandResults
  pub last_failure : Option StateExecutionFailure
  pub input : EncodedObject
  pub info : AsyncStateExecutionInfo

pub record AsyncStateExecutionRowForUpdate : Type 0 where
  pub key : StateKey
  pub status : StateExecutionStatus
  pub wait_until_commands : CommandRequest
  pub wait_until_command_results : CommandResults
  pub last_failure : Option StateExecutionFailure
  pub previous_version : ℕ

pub record AsyncStateExecutionRowForUpdateWithoutCommands : Type 0 where
  pub key : StateKey
  pub status : StateExecutionStatus
  pub last_failure : Option StateExecutionFailure
  pub previous_version : ℕ

pub record ImmediateTaskRowForInsert : Type 0 where
  pub shard_id : ℕ
  pub task_type : ImmediateTaskType
  pub process_execution_id : Uuid
  pub state_id : GoString
  pub state_id_sequence : ℕ
  pub info : ImmediateTaskInfo

pub record ImmediateTaskRow : Type 0 where
  pub task_sequence : ℕ
  pub row : ImmediateTaskRowForInsert
  pub open row use *

pub record TimerTaskRowForInsert : Type 0 where
  pub shard_id : ℕ
  pub fire_time_unix_seconds : ℕ
  pub task_type : TimerTaskType
  pub process_execution_id : Uuid
  pub state_id : GoString
  pub state_id_sequence : ℕ
  pub info : TimerTaskInfo

pub record TimerTaskRow : Type 0 where
  pub task_sequence : ℕ
  pub row : TimerTaskRowForInsert
  pub open row use *

pub record LocalQueueMessageRow : Type 0 where
  pub process_execution_id : Uuid
  pub queue_name : GoString
  pub dedup_id : Uuid
  pub payload : EncodedObject

-- A write to a table of the application.
pub data WriteMode : Type 0 where
  return_error_on_conflict ignore_conflict override_on_conflict upsert_by_pk : WriteMode

pub record AppDatabaseWriteRow : Type 0 where
  pub table_name : GoString
  pub primary_key : Columns
  pub other : Columns
  pub mode : WriteMode

-- A row of the visibility table, under the namespace and the id of the process execution.
pub record ExecutionVisibilityRow : Type 0 where
  pub namespace : GoString
  pub process_id : GoString
  pub process_execution_id : Uuid
  pub process_type_name : GoString
  pub status : ProcessExecutionStatus
  pub start_time : ℕ
  pub close_time : Option ℕ

pub record Db : Type 0 where
  pub latest : GoMap (GoString × GoString) Uuid
  pub processes : GoMap Uuid ProcessExecutionRow
  pub states : GoMap StateKey AsyncStateExecutionRow
  pub immediate_tasks : List ImmediateTaskRow
  pub next_immediate : ℕ
  pub timer_tasks : List TimerTaskRow
  pub next_timer : ℕ
  pub messages : GoMap (Uuid × Uuid) LocalQueueMessageRow
  pub attributes : GoMap (Uuid × GoString) EncodedObject
  pub app_writes : List AppDatabaseWriteRow
  pub visibility : GoMap (GoString × Uuid) ExecutionVisibilityRow

abbrev pub empty_db : Db
empty_db = record {
  latest = [];
  processes = [];
  states = [];
  immediate_tasks = [];
  next_immediate = 1;
  timer_tasks = [];
  next_timer = 1;
  messages = [];
  attributes = [];
  app_writes = [];
  visibility = [];
}
