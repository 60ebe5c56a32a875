-- ===== src/Process/Stop/Stopping.antt =====
-- persistence/process/stop_process.go: StopProcess on each of its branches, and what it keeps out.
use xdb.Prelude.{
  ℕ, ◌<◌, arith, true, false, some, ok, ◌≡◌, refl, sym, ap, ◌∙◌, GoString, nat_key, string_key,
  pair_key,
}
use xdb.Prelude.Maps.{get}
use xdb.DataModels.Enums.{is_running, state_status_code}
use xdb.DataModels.Infos.{Uuid}
use xdb.Database.Rows.{Db, AsyncStateExecutionRow, ProcessExecutionRow}
use xdb.Database.Tx.{◌>>=◌, Env, AppAnswer, Connection, run_tx, finish}
use xdb.Database.Statements.Answers.{select_process_execution_for_update-found}
use xdb.Process.Decision.{nothing_pending}
use xdb.Process.Execute.{CompleteExecuteExecutionRequest, complete_execute_execution}
use xdb.Process.Stop.{
  StopType, terminate, fail_type, StopProcessRequest, exists_answer, stop_process,
  do_stop_process_tx, stop_found,
}
use xdb.Process.Stop.Stopped.{
  IsLatest, HasStopped, latest_in_session-IsLatest, stop_running_lem, asked_status, stop_status_lem,
}
use xdb.Process.Stop.Fencing.{complete_execute_execution-stale}

-- Where the database begins and commits, the stop of a process whose latest execution runs succeeds.
-- The row of that execution then has the status that the type is for, failed or terminated, and
-- nothing pending; its unfinished state executions are aborted with a new version if any was pending,
-- and no state execution changes if none was; the rows of other process executions, their state
-- executions, the timer tasks, and which executions are the latest, stay; and there is one immediate
-- task more, in the shard that the request names, to record the status with the time of the stop.
pub stop_process-running :
    (c : Connection) (r : StopProcessRequest) (now : ℕ) (app : AppAnswer) (db : Db) (id : Uuid)
    (p : ProcessExecutionRow)
    → c.begins ≡ true
    → c.commits ≡ true
    → IsLatest db (r.namespace, r.process_id) id p
    → is_running p.status ≡ true
    → ((stop_process c r now app db).0 ≡ ok exists_answer)
      × HasStopped
          (asked_status r.process_stop_type)
          r.new_task_shard_id
          (r.namespace, r.process_id)
          id
          p
          now
          db
          (stop_process c r now app db).1
unfolding stop_process
stop_process-running c r now app db id p begins commits h running =
    let e : Env = record { committed = db; now = now; app_answer = app } in
    let key : GoString × GoString = (r.namespace, r.process_id) in
    let (db', stopped, rows) =
      stop_running_lem e db key r.new_task_shard_id (asked_status r.process_stop_type) id p h.row in
    rw
      (
        run_tx,
        begins,
        do_stop_process_tx,
        ◌>>=◌,
        latest_in_session-IsLatest e db key id p h,
        stop_found,
        ◌>>=◌,
        select_process_execution_for_update-found e db id p h.row,
        running,
        stop_status_lem r.process_stop_type,
        stopped,
        finish,
        commits,
      )
      (refl, rows)

-- Of a stop of a process whose latest execution is closed already
stop_process-closed :
    (c : Connection) (r : StopProcessRequest) (now : ℕ) (app : AppAnswer) (db : Db) (id : Uuid)
    (p : ProcessExecutionRow)
    → c.begins ≡ true
    → c.commits ≡ true
    → IsLatest db (r.namespace, r.process_id) id p
    → is_running p.status ≡ false
    → stop_process c r now app db ≡ (ok exists_answer, db)
unfolding stop_process
stop_process-closed c r now app db id p begins commits h closed =
    let e : Env = record { committed = db; now = now; app_answer = app } in
    rw
      (
        run_tx,
        begins,
        do_stop_process_tx,
        ◌>>=◌,
        latest_in_session-IsLatest e db (r.namespace, r.process_id) id p h,
        stop_found,
        ◌>>=◌,
        select_process_execution_for_update-found e db id p h.row,
        closed,
        finish,
        commits,
      )
      refl

asked_status_closed : (type : StopType) → is_running (asked_status type) ≡ false
asked_status_closed terminate = refl
asked_status_closed fail_type = refl

-- Where the database begins and commits, a process whose latest execution runs is stopped once: a
-- second stop of the process, of whatever type and at whatever time, succeeds as well and leaves every
-- table as the first one did, so that the status stays the first one's and is not recorded again.
pub stop_process-again :
    (c c' : Connection) (r r' : StopProcessRequest) (now now' : ℕ) (app app' : AppAnswer) (db : Db)
    (id : Uuid) (p : ProcessExecutionRow)
    → c.begins ≡ true
    → c.commits ≡ true
    → c'.begins ≡ true
    → c'.commits ≡ true
    → IsLatest db (r.namespace, r.process_id) id p
    → is_running p.status ≡ true
    → r'.namespace ≡ r.namespace
    → r'.process_id ≡ r.process_id
    → let stopped = (stop_process c r now app db).1 in
      stop_process c' r' now' app' stopped ≡ (ok exists_answer, stopped)
stop_process-again c c' r r' now now' app app' db id p begins commits begins' commits' h running
      namespace process_id =
    let (_, rows) = stop_process-running c r now app db id p begins commits h running in
    stop_process-closed c' r' now' app' (stop_process c r now app db).1 id _ begins' commits'
      (record {
        latest =
            rw (namespace, process_id)
              (ap (λ m. get m (r.namespace, r.process_id)) rows.latest ∙ h.latest);
        row = rows.row;
        process_id = h.process_id ∙ sym process_id;
      })
      (asked_status_closed r.process_stop_type)

-- After the stop of a running process execution that had a pending state, a worker that still
-- holds the version from before cannot complete an unfinished state execution of it.
pub stop_process-fences :
    (c : Connection) (r : StopProcessRequest) (now : ℕ) (app : AppAnswer) (db : Db)
    (p : ProcessExecutionRow) (drawn : ℕ → Uuid) (q : CompleteExecuteExecutionRequest)
    (row : AsyncStateExecutionRow) (c' : Connection) (now' : ℕ) (app' : AppAnswer)
    → c.begins ≡ true
    → c.commits ≡ true
    → IsLatest db (r.namespace, r.process_id) q.key.0 p
    → is_running p.status ≡ true
    → nothing_pending p.state_execution_sequence_maps ≡ false
    → get db.states q.key ≡ some row
    → state_status_code row.status < 4
    → q.previous_version ≡ row.version
    → let stopped = (stop_process c r now app db).1 in
      (complete_execute_execution c' drawn q now' app' stopped).1 ≡ stopped
stop_process-fences c r now app db p drawn q row c' now' app' begins commits h running pending found
      unfinished same =
    let (_, rows) = stop_process-running c r now app db q.key.0 p begins commits h running in
    complete_execute_execution-stale c' drawn q now' app' _ _
      (rows.unfinished q.key.1 row pending found unfinished) (omega arith)
