-- ===== src/Process/AppDatabase/Keeps.antt =====
-- persistence/process/write_app_database.go and write_local_attributes.go: none of their writes
-- touches a state execution.
use xdb.Prelude.{
  List, [], ◌∷◌, Option, none, some, Error, Result, ok, err, ◌≡◌, refl, arith, GoString, Bool-cases,
  inl, inr,
}
use xdb.DataModels.Infos.{Uuid, Columns, AppDatabaseConfig}
use xdb.Database.Rows.{Db, AppDatabaseWriteRow}
use xdb.Database.Tx.{Tx, Done}
use xdb.Database.Tx.Runs.{KeepsStates, bind-KeepsStates, pure-KeepsStates, fail-KeepsStates}
use xdb.Database.Statements.{write_app_database_table, write_answered, upsert_local_attribute}
use xdb.Process.AppDatabase.{
  RowWrite, TableWrite, KeyValue, is_valid_primary_key, put_columns, upsert_rows, upsert_table,
  write_to_app_database_if_needed, update_local_attributes_if_needed, attempt, answer_of,
}

write_answered-states :
    (db : Db) (row : AppDatabaseWriteRow) (x : Option Error) (a : Done) (db' : Db)
    → write_answered db row x ≡ ok (a, db')
    → db'.states ≡ db.states
write_answered-states db row none a db' q = cc q
write_answered-states db row (some x) a db' q = absurd (cc q)

write_app_database_table-KeepsStates :
    (row : AppDatabaseWriteRow) → KeepsStates (write_app_database_table row)
unfolding write_app_database_table
write_app_database_table-KeepsStates row e db a db' q =
    write_answered-states db row (e.app_answer db.app_writes row) a db' q

upsert_rows-KeepsStates :
    (table : GoString) (keys : List Columns) (rs : List RowWrite)
    → KeepsStates (upsert_rows table keys rs)
unfolding upsert_rows
upsert_rows-KeepsStates table keys [] = pure-KeepsStates tt
upsert_rows-KeepsStates table keys (r ∷ rs) =
    elim (Bool-cases (is_valid_primary_key keys (put_columns [] r.primary_key))) [
      | inl valid ↦ rw valid (
          bind-KeepsStates _ _ (write_app_database_table-KeepsStates _)
            (λ _. upsert_rows-KeepsStates table keys rs))
      | inr not_valid ↦ rw not_valid (fail-KeepsStates _)
    ]

upsert_table-KeepsStates :
    (t : TableWrite) (keys : Result (List Columns)) → KeepsStates (upsert_table t keys)
unfolding upsert_table
upsert_table-KeepsStates t (err x) = fail-KeepsStates x
upsert_table-KeepsStates t (ok keys) = upsert_rows-KeepsStates t.table_name keys t.rows

pub write_to_app_database_if_needed-KeepsStates :
    (config : Option AppDatabaseConfig) (ts : List TableWrite)
    → KeepsStates (write_to_app_database_if_needed config ts)
unfolding write_to_app_database_if_needed
write_to_app_database_if_needed-KeepsStates config [] = pure-KeepsStates tt
write_to_app_database_if_needed-KeepsStates config (t ∷ ts) =
    bind-KeepsStates _ _ (upsert_table-KeepsStates t _)
      (λ _. write_to_app_database_if_needed-KeepsStates config ts)

upsert_local_attribute-KeepsStates :
    (key : Uuid × GoString) (v : _) → KeepsStates (upsert_local_attribute key v)
unfolding upsert_local_attribute
upsert_local_attribute-KeepsStates key v e db a db' q = cc q

pub update_local_attributes_if_needed-KeepsStates :
    (id : Uuid) (kvs : List KeyValue) → KeepsStates (update_local_attributes_if_needed id kvs)
unfolding update_local_attributes_if_needed
update_local_attributes_if_needed-KeepsStates id [] = pure-KeepsStates tt
update_local_attributes_if_needed-KeepsStates id (kv ∷ kvs) =
    bind-KeepsStates _ _ (upsert_local_attribute-KeepsStates _ _)
      (λ _. update_local_attributes_if_needed-KeepsStates id kvs)

answer_of-states :
    (db : Db) (r : Result (Done × Db)) (a : Option Error) (db' : Db)
    → ((d : Done) (db1 : Db) → r ≡ ok (d, db1) → db1.states ≡ db.states)
    → answer_of db r ≡ ok (a, db')
    → db'.states ≡ db.states
answer_of-states db (ok (d, db1)) a db' h q = cc (q, h d db1 refl)
answer_of-states db (err x) a db' h q = ground arith

pub attempt-KeepsStates : (tx : Tx Done) → KeepsStates tx → KeepsStates (attempt tx)
unfolding attempt
attempt-KeepsStates tx h e db a db' q = answer_of-states db (tx e db) a db' (h e db) q
