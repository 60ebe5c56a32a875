-- ===== src/Database/Statements.antt =====
-- extensions/postgres/transactional.go: the statements on the tables of process executions, state
-- executions, messages and attributes, and the reads of non_transactional.go by key.
pub mod Answers
use xdb.Prelude.{
  ℕ, ◌+◌, Bool, true, false, List, [], ◌∷◌, ◌++◌, map, Option, none, some, Error, Result, ok, err,
  not_found, dup_entry, conditional_update_failure, if◌then◌else◌, ltb, ◌==◌, is_some, GoMap,
  GoString, nat_key, string_key, pair_key, ite, ℕ_discrete, string_discrete,
}
use xdb.Prelude.Maps.{get, set}
use xdb.DataModels.Enums.{StateExecutionStatus, aborted, state_status_code}
use xdb.DataModels.Infos.{Uuid, EncodedObject}
use xdb.DataModels.LocalQueues.{new_state_execution_local_queues}
use xdb.Database.Rows.{
  Db, ProcessExecutionRow, ProcessExecutionRowForUpdate, StateKey, AsyncStateExecutionRow,
  AsyncStateExecutionRowForUpdate, AsyncStateExecutionRowForUpdateWithoutCommands,
  LocalQueueMessageRow, AppDatabaseWriteRow,
}
use xdb.Database.Tx.{Tx, Done}

-- InsertLatestProcessExecution
unfoldable pub insert_latest_process_execution : GoString × GoString → Uuid → Tx Done
insert_latest_process_execution key id e db =
    if is_some (get db.latest key)
    then err dup_entry
    else ok (tt, record db { latest = set db.latest key id })

-- SelectLatestProcessExecutionForUpdate; the key is the primary key, so there is one row at most
unfoldable pub select_latest_process_execution_for_update : GoString × GoString → Tx (Option Uuid)
select_latest_process_execution_for_update key e db = ok (get db.latest key, db)

-- UpdateLatestProcessExecution
unfoldable pub update_latest_process_execution : GoString × GoString → Uuid → Tx Done
update_latest_process_execution key id e db =
    if is_some (get db.latest key)
    then ok (tt, record db { latest = set db.latest key id })
    else ok (tt, db)

-- InsertProcessExecution
unfoldable pub insert_process_execution_row : Uuid → ProcessExecutionRow → Tx Done
insert_process_execution_row id row e db =
    if is_some (get db.processes id)
    then err dup_entry
    else ok (tt, record db { processes = set db.processes id row })

abbrev pub found_or_error {ℓ} : {A : Type ℓ} → Db → Option A → Result (A × Db)
found_or_error db none = err not_found
found_or_error db (some a) = ok (a, db)

abbrev pub without_shard : Option ProcessExecutionRow → Option ProcessExecutionRow
without_shard none = none
without_shard (some r) = some (record r { shard_id = 0 })

-- SelectProcessExecution; the statement does not read shard_id, which stays 0 in the row
unfoldable pub select_process_execution : Uuid → Tx ProcessExecutionRow
select_process_execution id e db = found_or_error db (without_shard (get db.processes id))

abbrev pub for_update : Uuid → ProcessExecutionRow → ProcessExecutionRowForUpdate
for_update id r = record {
  process_execution_id = id;
  shard_id = r.shard_id;
  status = r.status;
  history_event_id_sequence = r.history_event_id_sequence;
  state_execution_sequence_maps = r.state_execution_sequence_maps;
  state_execution_local_queues = r.state_execution_local_queues;
  graceful_complete_requested = r.graceful_complete_requested;
}

abbrev pub select_for_update :
    Uuid → Db → Option ProcessExecutionRow → Result (ProcessExecutionRowForUpdate × Db)
select_for_update id db none = err not_found
select_for_update id db (some r) = ok (for_update id r, db)

-- SelectProcessExecutionForUpdate
unfoldable pub select_process_execution_for_update : Uuid → Tx ProcessExecutionRowForUpdate
select_process_execution_for_update id e db = select_for_update id db (get db.processes id)

abbrev pub updated_process :
    ProcessExecutionRowForUpdate → ProcessExecutionRow → ProcessExecutionRow
updated_process u r = record r {
  status = u.status;
  history_event_id_sequence = u.history_event_id_sequence;
  state_execution_sequence_maps = u.state_execution_sequence_maps;
  state_execution_local_queues = u.state_execution_local_queues;
  graceful_complete_requested = u.graceful_complete_requested;
}

abbrev pub update_found : Db → ProcessExecutionRowForUpdate → Option ProcessExecutionRow → Db
update_found db u none = db
update_found db u (some r) = record db {
  processes = set db.processes u.process_execution_id (updated_process u r);
}

-- UpdateProcessExecution; that no row has the id is no error
unfoldable pub update_process_execution : ProcessExecutionRowForUpdate → Tx Done
update_process_execution u e db =
    ok (tt, update_found db u (get db.processes u.process_execution_id))

-- InsertAsyncStateExecution
unfoldable pub insert_async_state_execution_row : StateKey → AsyncStateExecutionRow → Tx Done
insert_async_state_execution_row key row e db =
    if is_some (get db.states key)
    then err dup_entry
    else ok (tt, record db { states = set db.states key row })

abbrev pub found_state : StateKey → AsyncStateExecutionRow → AsyncStateExecutionRowForUpdate
found_state key r = record {
  key = key;
  status = r.status;
  wait_until_commands = r.wait_until_commands;
  wait_until_command_results = r.wait_until_command_results;
  last_failure = r.last_failure;
  previous_version = r.version;
}

abbrev pub state_for_update :
    StateKey → Db → Option AsyncStateExecutionRow → Result (AsyncStateExecutionRowForUpdate × Db)
state_for_update key db none = err not_found
state_for_update key db (some r) = ok (found_state key r, db)

-- SelectAsyncStateExecutionForUpdate
unfoldable pub select_async_state_execution_for_update :
    StateKey → Tx AsyncStateExecutionRowForUpdate
select_async_state_execution_for_update key e db = state_for_update key db (get db.states key)

-- An update of the row under `key` that asks for a version: no such row, or a row of another
-- version, is a conditional update failure.
abbrev pub update_state_if :
    StateKey
    → ℕ
    → (AsyncStateExecutionRow → AsyncStateExecutionRow)
    → Db
    → Option AsyncStateExecutionRow
    → Result (Done × Db)
update_state_if key version f db none = err conditional_update_failure
update_state_if key version f db (some r) =
    if r.version == version
    then ok (tt, record db { states = set db.states key (f r) })
    else err conditional_update_failure

abbrev pub updated_state :
    AsyncStateExecutionRowForUpdate → AsyncStateExecutionRow → AsyncStateExecutionRow
updated_state u r = record r {
  version = u.previous_version + 1;
  status = u.status;
  wait_until_commands = u.wait_until_commands;
  wait_until_command_results = u.wait_until_command_results;
  last_failure = u.last_failure;
}

abbrev pub updated_status :
    AsyncStateExecutionRowForUpdateWithoutCommands → AsyncStateExecutionRow → AsyncStateExecutionRow
updated_status u r = record r {
  version = u.previous_version + 1;
  status = u.status;
  last_failure = u.last_failure;
}

-- UpdateAsyncStateExecution
unfoldable pub update_async_state_execution : AsyncStateExecutionRowForUpdate → Tx Done
update_async_state_execution u e db =
    update_state_if u.key u.previous_version (updated_state u) db (get db.states u.key)

-- UpdateAsyncStateExecutionWithoutCommands
unfoldable pub update_async_state_execution_without_commands :
    AsyncStateExecutionRowForUpdateWithoutCommands → Tx Done
update_async_state_execution_without_commands u e db =
    update_state_if u.key u.previous_version (updated_status u) db (get db.states u.key)

-- The CASE expressions of the batch update: a row whose status is below 4 is aborted.
abbrev pub abort_row : AsyncStateExecutionRow → AsyncStateExecutionRow
abort_row r =
    if ltb (state_status_code r.status) 4
    then record r { version = r.version + 1; status = aborted }
    else r

unfoldable pub abort_rows :
    Uuid → GoMap StateKey AsyncStateExecutionRow → GoMap StateKey AsyncStateExecutionRow
abort_rows id [] = []
abort_rows id ((key, r) ∷ m) = (key, ite (ℕ_discrete key.0 id) (abort_row r) r) ∷ abort_rows id m

-- BatchUpdateAsyncStateExecutionsToAbortRunning
unfoldable pub batch_update_async_state_executions_to_abort_running : Uuid → Tx Done
unfolding abort_rows
batch_update_async_state_executions_to_abort_running id e db =
    ok (tt, record db { states = abort_rows id db.states })

-- InsertLocalQueueMessage: `false` if the message is there already
unfoldable pub insert_local_queue_message : LocalQueueMessageRow → Tx Bool
insert_local_queue_message row e db =
    if is_some (get db.messages (row.process_execution_id, row.dedup_id))
    then ok (false, db)
    else ok (
      true,
      record db { messages = set db.messages (row.process_execution_id, row.dedup_id) row },
    )

-- InsertLocalAttribute
unfoldable pub insert_local_attribute : Uuid × GoString → EncodedObject → Tx Done
insert_local_attribute key value e db =
    if is_some (get db.attributes key)
    then err dup_entry
    else ok (tt, record db { attributes = set db.attributes key value })

-- UpsertLocalAttribute
unfoldable pub upsert_local_attribute : Uuid × GoString → EncodedObject → Tx Done
upsert_local_attribute key value e db =
    ok (tt, record db { attributes = set db.attributes key value })

abbrev pub write_answered : Db → AppDatabaseWriteRow → Option Error → Result (Done × Db)
write_answered db row (some x) = err x
write_answered db row none = ok (tt, record db { app_writes = db.app_writes ++ row ∷ [] })

-- InsertAppDatabaseTable and UpsertAppDatabaseTableByPK
unfoldable pub write_app_database_table : AppDatabaseWriteRow → Tx Done
write_app_database_table row e db = write_answered db row (e.app_answer db.app_writes row)

abbrev pub read_row : GoString × GoString → ProcessExecutionRow → ProcessExecutionRow
read_row key r = record r {
  namespace = key.0;
  state_execution_local_queues = new_state_execution_local_queues;
  graceful_complete_requested = false;
}

-- The join of the two tables, with the columns that the statement reads.
abbrev pub joined : Db → GoString × GoString → Option Uuid → Result (Uuid × ProcessExecutionRow)
joined db key none = err not_found
joined db key (some id) = elim (get db.processes id) [
  | none ↦ err not_found
  | some r ↦ ite (string_discrete r.process_id key.1) (ok (id, read_row key r)) (err not_found)
]

-- SelectLatestProcessExecution of non_transactional.go
unfoldable pub select_latest_process_execution :
    Db → GoString × GoString → Result (Uuid × ProcessExecutionRow)
select_latest_process_execution db key = joined db key (get db.latest key)

abbrev pub add_message_row :
    Option LocalQueueMessageRow → GoMap Uuid LocalQueueMessageRow → GoMap Uuid LocalQueueMessageRow
add_message_row none m = m
add_message_row (some row) m = set m row.dedup_id row

-- SelectLocalQueueMessages of non_transactional.go, as the map that the process store builds of
-- the rows: those of the messages that are there
unfoldable pub select_local_queue_messages : Db → Uuid → List Uuid → GoMap Uuid LocalQueueMessageRow
select_local_queue_messages db id [] = []
select_local_queue_messages db id (d ∷ ds) =
    add_message_row (get db.messages (id, d)) (select_local_queue_messages db id ds)
