-- ===== src/Process/Reads.antt =====
-- The reads of persistence/process that hand a statement on: prepare_state.go,
-- load_local_attributes.go, read_app_database.go, get_latest_process_execution.go,
-- describe_latest_process.go and delete_immediate_tasks.go.
use xdb.Prelude.{
  ℕ, List, [], ◌∷◌, ◌++◌, Option, none, some, Result, ok, err, if◌then◌else◌, GoString, nat_key,
  string_key, pair_key, lock_not_supported, table_not_configured, not_found, ◌>>=◌,
}
use xdb.Prelude.Maps.{get, is_empty}
use xdb.DataModels.Enums.{StateExecutionStatus}
use xdb.DataModels.Infos.{
  Uuid, EncodedObject, AsyncStateExecutionInfo, TableReadRequest, LoadLocalAttributesRequest,
  Columns, AppDatabaseConfig,
}
use xdb.Database.Rows.{Db, StateKey, AsyncStateExecutionRow, ProcessExecutionRow}
use xdb.Database.Statements.{select_latest_process_execution}
use xdb.Database.Tasks.{batch_delete_immediate_task}
use xdb.Process.AppDatabase.{KeyValue}
use xdb.Process.Pages.{CommandStatus, LocalQueueResult, prepare_wait_until_command_results}

-- PrepareStateExecutionResponse
pub record PrepareStateExecutionResponse : Type 0 where
  pub status : StateExecutionStatus
  pub wait_until_command_results : List CommandStatus × List LocalQueueResult
  pub previous_version : ℕ
  pub info : AsyncStateExecutionInfo
  pub input : EncodedObject

abbrev pub prepared_row : AsyncStateExecutionRow → PrepareStateExecutionResponse
prepared_row row = record {
  status = row.status;
  wait_until_command_results =
      prepare_wait_until_command_results row.wait_until_command_results row.wait_until_commands;
  previous_version = row.version;
  info = row.info;
  input = row.input;
}

abbrev pub prepared : Option AsyncStateExecutionRow → Result PrepareStateExecutionResponse
prepared none = err not_found
prepared (some row) = ok (prepared_row row)

-- PrepareStateExecution
unfoldable pub prepare_state_execution : StateKey → Db → Result PrepareStateExecutionResponse
unfolding prepare_wait_until_command_results get
prepare_state_execution key db = prepared (get db.states key)

abbrev pub attribute_if : GoString → Option EncodedObject → List KeyValue
attribute_if key none = []
attribute_if key (some value) = record { key = key; value = value } ∷ []

-- SelectLocalAttributes
unfoldable pub select_local_attributes : Db → Uuid → List GoString → List KeyValue
unfolding get
select_local_attributes db id [] = []
select_local_attributes db id (key ∷ keys) =
    attribute_if key (get db.attributes (id, key)) ++ select_local_attributes db id keys

-- LoadLocalAttributes. The lock type is compared with the address of a new variable, so keys with a
-- lock are refused for any type.
unfoldable pub load_local_attributes :
    Uuid → LoadLocalAttributesRequest → Db → Result (List KeyValue)
unfolding select_local_attributes
load_local_attributes id r db =
    if is_empty r.keys_to_load_with_lock
    then ok (select_local_attributes db id r.keys_to_load_no_lock)
    else err lock_not_supported

-- What the application's tables answer to a read: the table, the keys, the columns.
abbrev pub TableReads : Type 0
TableReads = GoString → List Columns → List GoString → Result (List Columns)

abbrev pub configured : Option (List Columns) → Result (List Columns)
configured none = err table_not_configured
configured (some pk) = ok pk

unfoldable pub read_table :
    TableReads → AppDatabaseConfig → TableReadRequest → Result (GoString × List Columns)
unfolding get
read_table reads config r = if r.locks then err lock_not_supported else (do
  pk ← configured (get config r.table_name)
  rows ← reads r.table_name pk r.columns
  ok (r.table_name, rows))

-- ReadAppDatabase
unfoldable pub read_app_database :
    TableReads → AppDatabaseConfig → List TableReadRequest → Result (List (GoString × List Columns))
unfolding read_table
read_app_database reads config [] = ok []
read_app_database reads config (r ∷ rs) = do
  first ← read_table reads config r
  rest ← read_app_database reads config rs
  ok (first ∷ rest)

-- GetLatestProcessExecutionResponse and DescribeLatestProcessResponse, the fields of the row
pub data LatestProcess : Type 0 where
  not_exists : LatestProcess
  latest_process : Uuid → ProcessExecutionRow → LatestProcess

abbrev pub latest_or_error : Result (Uuid × ProcessExecutionRow) → Result LatestProcess
latest_or_error (ok (id, row)) = ok (latest_process id row)
latest_or_error (err not_found) = ok not_exists
latest_or_error (err e) = err e

-- GetLatestProcessExecution, and DescribeLatestProcess
unfoldable pub get_latest_process_execution : GoString × GoString → Db → Result LatestProcess
unfolding select_latest_process_execution
get_latest_process_execution key db = latest_or_error (select_latest_process_execution db key)

-- DeleteImmediateTasks
unfoldable pub delete_immediate_tasks : ℕ → ℕ → ℕ → Db → Db
unfolding batch_delete_immediate_task
delete_immediate_tasks shard min_sequence max_sequence db =
    batch_delete_immediate_task shard min_sequence max_sequence db
