-- ===== src/Process/AppDatabase.antt =====
-- persistence/process/write_app_database.go and write_local_attributes.go, and the internal
-- configuration of persistence/data_models/internal_app_database_config.go.
pub mod Keeps
use xdb.Prelude.{
  ℕ, Bool, true, false, not, ◌&&◌, List, [], ◌∷◌, map, Option, none, some, Error, Result, ok, err,
  panic, missing_primary_key, if◌then◌else◌, GoMap, GoString, nat_key, string_key, pair_key,
  string_discrete, ite,
}
use xdb.Prelude.Maps.{get, set}
use xdb.DataModels.Infos.{Uuid, EncodedObject, Columns, AppDatabaseConfig}
use xdb.Database.Rows.{Db, AppDatabaseWriteRow, WriteMode, return_error_on_conflict, upsert_by_pk}
use xdb.Database.Tx.{Tx, Done, ◌>>=◌, ◌>>◌, pure, fail}
use xdb.Database.Statements.{
  write_app_database_table, insert_local_attribute, upsert_local_attribute,
}

-- xcapi.AppDatabaseTableConfig and its rows
pub record RowConfig : Type 0 where
  pub primary_key : Columns
  pub initial_write : Columns
  pub conflict_mode : Option WriteMode

pub record TableConfig : Type 0 where
  pub table_name : GoString
  pub rows : List RowConfig

-- xcapi.AppDatabaseTableWrite and its rows
pub record RowWrite : Type 0 where
  pub primary_key : Columns
  pub write_columns : Columns

pub record TableWrite : Type 0 where
  pub table_name : GoString
  pub rows : List RowWrite

-- xcapi.KeyValue
pub record KeyValue : Type 0 where
  pub key : GoString
  pub value : EncodedObject

-- The loops that put columns into a map: a column that comes twice keeps its last value.
unfoldable pub put_columns : Columns → Columns → Columns
put_columns m [] = m
put_columns m ((column, value) ∷ cs) = put_columns (set m column value) cs

abbrev pub mode_or : WriteMode → Option WriteMode → WriteMode
mode_or default none = default
mode_or default (some m) = m

unfoldable pub insert_rows : GoString → List RowConfig → Tx Done
unfolding put_columns write_app_database_table
insert_rows table [] = pure tt
insert_rows table (r ∷ rs) = do
  write_app_database_table (record {
    table_name = table;
    primary_key = put_columns [] r.primary_key;
    other = put_columns [] r.initial_write;
    mode = mode_or return_error_on_conflict r.conflict_mode;
  })
  insert_rows table rs

-- writeToAppDatabase, for the tables of the configuration; no configuration is no table
unfoldable pub write_to_app_database : List TableConfig → Tx Done
unfolding insert_rows
write_to_app_database [] = pure tt
write_to_app_database (t ∷ ts) = do insert_rows t.table_name t.rows; write_to_app_database ts

unfoldable pub table_primary_keys : List TableConfig → AppDatabaseConfig → AppDatabaseConfig
table_primary_keys [] m = m
table_primary_keys (t ∷ ts) m =
    table_primary_keys ts (set m t.table_name (map (λ r. r.primary_key) t.rows))

-- getInternalAppDatabaseConfig
unfoldable pub get_internal_app_database_config :
    Option (List TableConfig) → Option AppDatabaseConfig
unfolding table_primary_keys
get_internal_app_database_config none = none
get_internal_app_database_config (some ts) = some (table_primary_keys ts [])

abbrev pub has_value : Option GoString → GoString → Bool
has_value none v = false
has_value (some w) v = ite (string_discrete w v) true false

-- The inner loop of isValidPrimaryKey: every column has its value in the target.
unfoldable pub all_columns : Columns → Columns → Bool
all_columns [] target = true
all_columns ((column, value) ∷ cs) target =
    has_value (get target column) value && all_columns cs target

-- isValidPrimaryKey
unfoldable pub is_valid_primary_key : List Columns → Columns → Bool
unfolding all_columns
is_valid_primary_key [] target = false
is_valid_primary_key (k ∷ ks) target =
    if all_columns k target then true else is_valid_primary_key ks target

unfoldable pub upsert_rows : GoString → List Columns → List RowWrite → Tx Done
unfolding is_valid_primary_key put_columns write_app_database_table
upsert_rows table keys [] = pure tt
upsert_rows table keys (r ∷ rs) =
    if is_valid_primary_key keys (put_columns [] r.primary_key)
    then (do
      write_app_database_table (record {
        table_name = table;
        primary_key = put_columns [] r.primary_key;
        other = put_columns [] r.write_columns;
        mode = upsert_by_pk;
      })
      upsert_rows table keys rs)
    else fail missing_primary_key

-- The primary keys of a table; the configuration is a pointer that is read without a test.
abbrev pub keys_of : Option AppDatabaseConfig → GoString → Result (List Columns)
keys_of none table = err panic
keys_of (some config) table = elim (get config table) [
  | none ↦ err missing_primary_key
  | some ks ↦ ok (map (put_columns []) ks)
]

unfoldable pub upsert_table : TableWrite → Result (List Columns) → Tx Done
unfolding upsert_rows
upsert_table t (err x) = fail x
upsert_table t (ok keys) = upsert_rows t.table_name keys t.rows

-- writeToAppDatabaseIfNeeded, for the tables of the write
unfoldable pub write_to_app_database_if_needed :
    Option AppDatabaseConfig → List TableWrite → Tx Done
unfolding upsert_table put_columns
write_to_app_database_if_needed config [] = pure tt
write_to_app_database_if_needed config (t ∷ ts) = do
  upsert_table t (keys_of config t.table_name)
  write_to_app_database_if_needed config ts

-- handleInitialLocalAttributesWrite, for the initial writes of the configuration
unfoldable pub handle_initial_local_attributes_write : Uuid → List KeyValue → Tx Done
unfolding insert_local_attribute
handle_initial_local_attributes_write id [] = pure tt
handle_initial_local_attributes_write id (kv ∷ kvs) = do
  insert_local_attribute (id, kv.key) kv.value
  handle_initial_local_attributes_write id kvs

-- updateLocalAttributesIfNeeded
unfoldable pub update_local_attributes_if_needed : Uuid → List KeyValue → Tx Done
unfolding upsert_local_attribute
update_local_attributes_if_needed id [] = pure tt
update_local_attributes_if_needed id (kv ∷ kvs) = do
  upsert_local_attribute (id, kv.key) kv.value
  update_local_attributes_if_needed id kvs

-- A failed write to the application's tables is an answer, not an error of the operation; a panic
-- is no answer.
abbrev pub is_panic : Error → Bool
is_panic panic = true
is_panic _ = false

abbrev pub answer_of : Db → Result (Done × Db) → Result (Option Error × Db)
answer_of db (ok (_, db')) = ok (none, db')
answer_of db (err x) = if is_panic x then err x else ok (some x, db)

unfoldable pub attempt : Tx Done → Tx (Option Error)
attempt tx e db = answer_of db (tx e db)
