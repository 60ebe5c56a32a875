-- ===== src/Database/Visibility.antt =====
-- persistence/visibility/visibility_store.go, RecordProcessExecutionStatus, and its statements in
-- extensions/postgres/non_transactional.go, which run outside a transaction.
use xdb.Prelude.{
  ℕ, Option, none, some, Result, ok, err, dup_entry, undefined_status, missing_start_time, panic,
  GoString, nat_key, string_key, pair_key, is_some, if◌then◌else◌, ◌≡◌, refl, Error, Bool-cases,
  inl, inr,
}
use xdb.Prelude.Maps.{get, set}
use xdb.DataModels.Enums.{ProcessExecutionStatus, undefined, running}
use xdb.DataModels.Infos.{Uuid, VisibilityInfo}
use xdb.Database.Rows.{Db, ExecutionVisibilityRow}
use xdb.Database.Tx.{Done}

-- InsertProcessExecutionStartForVisibility: a row that is there violates the primary key
unfoldable pub insert_process_execution_start_for_visibility :
    ExecutionVisibilityRow → Db → Result Done × Db
insert_process_execution_start_for_visibility row db =
    let key : GoString × Uuid = (row.namespace, row.process_execution_id) in
    if is_some (get db.visibility key)
    then (err dup_entry, db)
    else (ok tt, record db { visibility = set db.visibility key row })

abbrev pub update_found :
    GoString × Uuid
    → ProcessExecutionStatus
    → ℕ
    → Option ExecutionVisibilityRow
    → Db
    → Result Done × Db
update_found key status close none db = (ok tt, db)
update_found key status close (some row) db = (
  ok tt,
  record db {
    visibility = set db.visibility key (record row { status = status; close_time = some close });
  },
)

-- UpdateProcessExecutionStatusForVisibility: where there is no row, nothing changes
unfoldable pub update_process_execution_status_for_visibility :
    GoString → Uuid → ProcessExecutionStatus → ℕ → Db → Result Done × Db
update_process_execution_status_for_visibility namespace id status close db =
    update_found (namespace, id) status close (get db.visibility (namespace, id)) db

-- The statement where the database answers without an error
abbrev pub if_answered : Result Done → (Db → Result Done × Db) → Db → Result Done × Db
if_answered (err x) statement db = (err x, db)
if_answered (ok _) statement db = statement db

abbrev pub record_start : Result Done → Uuid → VisibilityInfo → Option ℕ → Db → Result Done × Db
record_start answers id info none db = (err missing_start_time, db)
record_start answers id info (some start) db =
    if_answered answers
      (insert_process_execution_start_for_visibility (record {
        namespace = info.namespace;
        process_id = info.process_id;
        process_execution_id = id;
        process_type_name = info.process_type;
        status = info.status;
        start_time = start;
        close_time = none;
      }))
      db

-- A close time that is nil is dereferenced.
abbrev pub record_close : Result Done → Uuid → VisibilityInfo → Option ℕ → Db → Result Done × Db
record_close answers id info none db = (err panic, db)
record_close answers id info (some close) db =
    if_answered answers
      (update_process_execution_status_for_visibility info.namespace id info.status close) db

abbrev pub record_by_status :
    Result Done → Uuid → VisibilityInfo → ProcessExecutionStatus → Db → Result Done × Db
record_by_status answers id info undefined db = (err undefined_status, db)
record_by_status answers id info running db = record_start answers id info info.start_time db
record_by_status answers id info _ db = record_close answers id info info.close_time db

-- RecordProcessExecutionStatus, with what the database answers to its statement
unfoldable pub record_process_execution_status :
    Result Done → Uuid → VisibilityInfo → Db → Result Done × Db
unfolding insert_process_execution_start_for_visibility
    update_process_execution_status_for_visibility
record_process_execution_status answers id info db = record_by_status answers id info info.status db

-- An operation that changes no other table than the visibility table, and none where it fails
pub record OnlyRecords (db : Db) (o : Result Done × Db) : Type 0 where
  pub others : record o.1 { visibility = db.visibility } ≡ db
  pub on_error : (x : Error) → o.0 ≡ err x → o.1 ≡ db

nothing-OnlyRecords : (db : Db) (r : Result Done) → OnlyRecords db (r, db)
nothing-OnlyRecords db r = record { others = refl; on_error = λ x e. refl }

insert-OnlyRecords :
    (row : ExecutionVisibilityRow) (db : Db)
    → OnlyRecords db (insert_process_execution_start_for_visibility row db)
unfolding insert_process_execution_start_for_visibility
insert-OnlyRecords row db =
    elim (Bool-cases (is_some (get db.visibility (row.namespace, row.process_execution_id)))) [
      | inl there ↦ rw there (nothing-OnlyRecords db (err dup_entry))
      | inr absent ↦ rw absent (record { others = refl; on_error = λ x e. absurd (cc e) })
    ]

update_found-OnlyRecords :
    (key : GoString × Uuid) (status : ProcessExecutionStatus) (close : ℕ)
    (o : Option ExecutionVisibilityRow) (db : Db)
    → OnlyRecords db (update_found key status close o db)
update_found-OnlyRecords key status close none db = nothing-OnlyRecords db (ok tt)
update_found-OnlyRecords key status close (some row) db = record {
  others = refl;
  on_error = λ x e. absurd (cc e);
}

record_start-OnlyRecords :
    (answers : Result Done) (id : Uuid) (info : VisibilityInfo) (start : Option ℕ) (db : Db)
    → OnlyRecords db (record_start answers id info start db)
record_start-OnlyRecords answers id info none db = nothing-OnlyRecords db _
record_start-OnlyRecords (err x) id info (some start) db = nothing-OnlyRecords db _
record_start-OnlyRecords (ok _) id info (some start) db = insert-OnlyRecords _ db

record_close-OnlyRecords :
    (answers : Result Done) (id : Uuid) (info : VisibilityInfo) (close : Option ℕ) (db : Db)
    → OnlyRecords db (record_close answers id info close db)
unfolding update_process_execution_status_for_visibility
record_close-OnlyRecords answers id info none db = nothing-OnlyRecords db _
record_close-OnlyRecords (err x) id info (some close) db = nothing-OnlyRecords db _
record_close-OnlyRecords (ok _) id info (some close) db =
    update_found-OnlyRecords (info.namespace, id) info.status close
      (get db.visibility (info.namespace, id)) db

record_by_status-OnlyRecords :
    (answers : Result Done) (id : Uuid) (info : VisibilityInfo) (status : ProcessExecutionStatus)
    (db : Db)
    → OnlyRecords db (record_by_status answers id info status db)
record_by_status-OnlyRecords answers id info ProcessExecutionStatus.undefined db =
    nothing-OnlyRecords db _
record_by_status-OnlyRecords answers id info ProcessExecutionStatus.running db =
    record_start-OnlyRecords answers id info info.start_time db
record_by_status-OnlyRecords answers id info ProcessExecutionStatus.completed db =
    record_close-OnlyRecords answers id info info.close_time db
record_by_status-OnlyRecords answers id info ProcessExecutionStatus.failed db =
    record_close-OnlyRecords answers id info info.close_time db
record_by_status-OnlyRecords answers id info ProcessExecutionStatus.timeout db =
    record_close-OnlyRecords answers id info info.close_time db
record_by_status-OnlyRecords answers id info ProcessExecutionStatus.terminated db =
    record_close-OnlyRecords answers id info info.close_time db

pub record_process_execution_status-OnlyRecords :
    (answers : Result Done) (id : Uuid) (info : VisibilityInfo) (db : Db)
    → OnlyRecords db (record_process_execution_status answers id info db)
unfolding record_process_execution_status
record_process_execution_status-OnlyRecords answers id info db =
    record_by_status-OnlyRecords answers id info info.status db
