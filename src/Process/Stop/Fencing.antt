-- ===== src/Process/Stop/Fencing.antt =====
-- persistence/process/stop_process.go: what stopping a process does to the rows, and why a worker
-- that comes late cannot change a state execution that was aborted.
use xdb.Prelude.{
  ℕ, ◌+◌, ◌<◌, arith, true, [], ◌∷◌, Option, none, some, Error, err, conditional_update_failure,
  ◌≡◌, ◌≢◌, refl, ap, ◌∙◌, GoMap, nat_key, string_key, pair_key, ite, if_pos, if_neg, ℕ_discrete,
  Option-cases, inl, inr,
}
use xdb.Prelude.Maps.{get}
use xdb.DataModels.Enums.{state_status_code, aborted}
use xdb.DataModels.Infos.{Uuid}
use xdb.Database.Rows.{
  Db, StateKey, AsyncStateExecutionRow, AsyncStateExecutionRowForUpdateWithoutCommands,
  ProcessExecutionRowForUpdate,
}
use xdb.Database.Tx.{Env, AppAnswer, Connection}
use xdb.Database.Statements.{
  abort_rows, abort_row, update_async_state_execution_without_commands,
  select_process_execution_for_update,
}
use xdb.Process.AppDatabase.{
  update_local_attributes_if_needed, write_to_app_database_if_needed, attempt,
}
use xdb.Process.AppDatabase.Keeps.{
  write_to_app_database_if_needed-KeepsStates, update_local_attributes_if_needed-KeepsStates,
  attempt-KeepsStates,
}
use xdb.Database.Tx.Runs.{
  KeepsStates, Yields, bind-Yields, then-Yields, fails-Yields, run_tx-Yields,
}
use xdb.Process.Execute.{
  CompleteExecuteExecutionRequest, CompleteExecuteExecutionResponse, complete_written,
  complete_decided, completed_row, complete_if_written, do_complete_execute_execution_tx,
  complete_execute_execution, execute_rolls_back,
}

abbrev aborted_option :
    Uuid → StateKey → Option AsyncStateExecutionRow → Option AsyncStateExecutionRow
aborted_option id key none = none
aborted_option id key (some r) = some (ite (ℕ_discrete key.0 id) (abort_row r) r)

pub get-abort_rows :
    (id : Uuid) (key : StateKey) (m : GoMap StateKey AsyncStateExecutionRow)
    → get (abort_rows id m) key ≡ aborted_option id key (get m key)
unfolding get abort_rows
get-abort_rows id key [] = refl
get-abort_rows id key ((k, r) ∷ m) = elim (pair_key.same k key) [
  | yes p ↦
      rw (if_pos _ p) (rw (if_pos _ p) (ap (λ x. some (ite (ℕ_discrete x.0 id) (abort_row r) r)) p))
  | no n ↦ rw (if_neg _ n) (rw (if_neg _ n) (get-abort_rows id key m))
]

-- The row of an unfinished state execution after the batch update.
pub get-abort_rows_own :
    (m : GoMap StateKey AsyncStateExecutionRow) (key : StateKey) (r : AsyncStateExecutionRow)
    → get m key ≡ some r
    → state_status_code r.status < 4
    → get (abort_rows key.0 m) key ≡ some (record r { version = r.version + 1; status = aborted })
get-abort_rows_own m key r e unfinished =
    get-abort_rows key.0 key m
    ∙ ap (aborted_option key.0 key) e
    ∙ ap some (if_pos (ℕ_discrete key.0 key.0) refl _ _ ∙ ground arith)

-- The rows of other process executions are kept.
pub get-abort_rows_other :
    (id : Uuid) (key : StateKey) (m : GoMap StateKey AsyncStateExecutionRow)
    → key.0 ≢ id
    → get (abort_rows id m) key ≡ get m key
get-abort_rows_other id key m other = get-abort_rows id key m ∙ elim (Option-cases (get m key)) [
  | inl missing ↦ rw missing refl
  | inr (r, there) ↦ rw there (ap some (if_neg (ℕ_discrete key.0 id) other _ _))
]

select_process_execution_for_update-KeepsStates :
    (id : Uuid) → KeepsStates (select_process_execution_for_update id)
unfolding select_process_execution_for_update
select_process_execution_for_update-KeepsStates id e db a db' p =
    elim (Option-cases (get db.processes id)) [
      | inl missing ↦ ground arith
      | inr (r, there) ↦ ground arith
    ]

-- The rows of the states before and after a stop of the process execution of `key`, as far as a
-- conditional update at `key` sees them.
pub update_async_state_execution_without_commands-stale :
    (u : AsyncStateExecutionRowForUpdateWithoutCommands) (env : Env) (db : Db)
    (r : AsyncStateExecutionRow)
    → get db.states u.key ≡ some r
    → u.previous_version < r.version
    → update_async_state_execution_without_commands u env db ≡ err conditional_update_failure
unfolding update_async_state_execution_without_commands
update_async_state_execution_without_commands-stale u env db r e stale = rw e (ground arith)

abbrev RollsBack : CompleteExecuteExecutionResponse → Type 0
RollsBack a = execute_rolls_back a ≡ true

module _ (drawn : ℕ → Uuid) (q : CompleteExecuteExecutionRequest)
    (states : GoMap StateKey AsyncStateExecutionRow) (r : AsyncStateExecutionRow)
    (found : get states q.key ≡ some r) (stale : q.previous_version < r.version) where
  complete_written-Yields :
      (row : ProcessExecutionRowForUpdate) → Yields states RollsBack (complete_written drawn q row)
  unfolding complete_written
  complete_written-Yields row =
      then-Yields states RollsBack
        (update_local_attributes_if_needed q.key.0 q.update_local_attributes) _
        (update_local_attributes_if_needed-KeepsStates q.key.0 q.update_local_attributes)
        (fails-Yields states RollsBack _ (complete_decided drawn q row) conditional_update_failure
          (λ e db s.
            update_async_state_execution_without_commands-stale (completed_row q) e db r
              (ap (λ m. get m q.key) s ∙ found) stale))

  complete_if_written-Yields :
      (row : ProcessExecutionRowForUpdate) (x : Option Error)
      → Yields states RollsBack (complete_if_written drawn q row x)
  unfolding complete_if_written
  complete_if_written-Yields row none e db s a db' p = complete_written-Yields row e db s a db' p
  complete_if_written-Yields row (some x) e db s a db' p = ground arith

  do_complete_execute_execution_tx-Yields :
      Yields states RollsBack (do_complete_execute_execution_tx drawn q)
  unfolding do_complete_execute_execution_tx
  do_complete_execute_execution_tx-Yields =
      bind-Yields states RollsBack _ _ (select_process_execution_for_update-KeepsStates q.key.0)
        (λ row.
          bind-Yields states RollsBack
            (attempt (write_to_app_database_if_needed q.app_database_config q.write_app_database)) _
            (attempt-KeepsStates _ (
              write_to_app_database_if_needed-KeepsStates q.app_database_config
                q.write_app_database))
            (λ x. complete_if_written-Yields row x))

-- When the row of a state execution has a newer version than the one that a worker prepared from,
-- the completion of that worker changes no table.
pub complete_execute_execution-stale :
    (c : Connection) (drawn : ℕ → Uuid) (q : CompleteExecuteExecutionRequest) (now : ℕ)
    (app : AppAnswer) (db : Db) (r : AsyncStateExecutionRow)
    → get db.states q.key ≡ some r
    → q.previous_version < r.version
    → (complete_execute_execution c drawn q now app db).1 ≡ db
unfolding complete_execute_execution
complete_execute_execution-stale c drawn q now app db r found stale =
    run_tx-Yields c execute_rolls_back (do_complete_execute_execution_tx drawn q) now app db
      (do_complete_execute_execution_tx-Yields drawn q db.states r found stale)
