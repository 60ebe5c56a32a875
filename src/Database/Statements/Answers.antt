-- ===== src/Database/Statements/Answers.antt =====
-- What the statements of extensions/postgres answer when their row is there, or is not.
use xdb.Prelude.{none, some, ok, ◌≡◌, refl, arith, GoString, nat_key, string_key, pair_key}
use xdb.Prelude.Maps.{get, set}
use xdb.DataModels.Infos.{Uuid}
use xdb.Database.Rows.{
  Db, StateKey, AsyncStateExecutionRow, AsyncStateExecutionRowForUpdate,
  AsyncStateExecutionRowForUpdateWithoutCommands, ProcessExecutionRow, ProcessExecutionRowForUpdate,
}
use xdb.Database.Tx.{Env}
use xdb.Database.Statements.{
  insert_latest_process_execution, update_latest_process_execution, insert_process_execution_row,
  insert_async_state_execution_row, select_process_execution, select_process_execution_for_update,
  update_process_execution, for_update, updated_process, select_async_state_execution_for_update,
  found_state, updated_state, updated_status, update_async_state_execution,
  update_async_state_execution_without_commands,
}

module _ (e : Env) (db : Db) where
  pub insert_latest_process_execution-absent :
      (key : GoString × GoString) (id : Uuid)
      → get db.latest key ≡ none
      → insert_latest_process_execution key id e db
        ≡ ok (tt, record db { latest = set db.latest key id })
  unfolding insert_latest_process_execution
  insert_latest_process_execution-absent key id h = rw h refl

  pub update_latest_process_execution-found :
      (key : GoString × GoString) (id previous : Uuid)
      → get db.latest key ≡ some previous
      → update_latest_process_execution key id e db
        ≡ ok (tt, record db { latest = set db.latest key id })
  unfolding update_latest_process_execution
  update_latest_process_execution-found key id previous h = rw h refl

  pub insert_process_execution_row-absent :
      (id : Uuid) (p : ProcessExecutionRow)
      → get db.processes id ≡ none
      → insert_process_execution_row id p e db
        ≡ ok (tt, record db { processes = set db.processes id p })
  unfolding insert_process_execution_row
  insert_process_execution_row-absent id p h = rw h refl

  pub insert_async_state_execution_row-absent :
      (key : StateKey) (row : AsyncStateExecutionRow)
      → get db.states key ≡ none
      → insert_async_state_execution_row key row e db
        ≡ ok (tt, record db { states = set db.states key row })
  unfolding insert_async_state_execution_row
  insert_async_state_execution_row-absent key row h = rw h refl

  pub select_process_execution-found :
      (id : Uuid) (p : ProcessExecutionRow)
      → get db.processes id ≡ some p
      → select_process_execution id e db ≡ ok (record p { shard_id = 0 }, db)
  unfolding select_process_execution
  select_process_execution-found id p h = rw h refl

  pub select_process_execution_for_update-found :
      (id : Uuid) (p : ProcessExecutionRow)
      → get db.processes id ≡ some p
      → select_process_execution_for_update id e db ≡ ok (for_update id p, db)
  unfolding select_process_execution_for_update
  select_process_execution_for_update-found id p h = rw h refl

  pub update_process_execution-found :
      (u : ProcessExecutionRowForUpdate) (p : ProcessExecutionRow)
      → get db.processes u.process_execution_id ≡ some p
      → update_process_execution u e db
        ≡ ok (
          tt,
          record db { processes = set db.processes u.process_execution_id (updated_process u p) },
        )
  unfolding update_process_execution
  update_process_execution-found u p h = rw h refl

  pub select_async_state_execution_for_update-found :
      (key : StateKey) (row : AsyncStateExecutionRow)
      → get db.states key ≡ some row
      → select_async_state_execution_for_update key e db ≡ ok (found_state key row, db)
  unfolding select_async_state_execution_for_update
  select_async_state_execution_for_update-found key row h = rw h refl

  -- A conditional update at the row's own version.
  pub update_async_state_execution-current :
      (u : AsyncStateExecutionRowForUpdate) (row : AsyncStateExecutionRow)
      → get db.states u.key ≡ some row
      → row.version ≡ u.previous_version
      → update_async_state_execution u e db
        ≡ ok (tt, record db { states = set db.states u.key (updated_state u row) })
  unfolding update_async_state_execution
  update_async_state_execution-current u row h same = rw h (ground (arith, same))

  pub update_async_state_execution_without_commands-current :
      (u : AsyncStateExecutionRowForUpdateWithoutCommands) (row : AsyncStateExecutionRow)
      → get db.states u.key ≡ some row
      → row.version ≡ u.previous_version
      → update_async_state_execution_without_commands u e db
        ≡ ok (tt, record db { states = set db.states u.key (updated_status u row) })
  unfolding update_async_state_execution_without_commands
  update_async_state_execution_without_commands-current u row h same = rw h (ground (arith, same))
