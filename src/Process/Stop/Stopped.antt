-- ===== src/Process/Stop/Stopped.antt =====
-- persistence/process/stop_process.go: what the stop of a running process execution leaves.
use xdb.Prelude.{
  sym, ℕ, ◌+◌, ◌<◌, Bool, true, false, not, [], ◌∷◌, ◌++◌, none, some, ok, if◌then◌else◌, ◌≡◌, ◌≢◌,
  refl, GoString, nat_key, string_key, pair_key, string_discrete, if_pos, Bool-cases, inl, inr,
}
use xdb.Prelude.Maps.{get, get-set_self, get-set_ne}
use xdb.DataModels.Enums.{ProcessExecutionStatus, state_status_code, aborted, visibility}
use xdb.DataModels.Infos.{Uuid, no_task_info}
use xdb.Database.Rows.{Db, StateKey, AsyncStateExecutionRow, ProcessExecutionRow}
use xdb.Database.Tx.{◌>>◌, Env}
use xdb.Database.Statements.{
  abort_rows, batch_update_async_state_executions_to_abort_running, joined, read_row, for_update,
  select_latest_process_execution,
}
use xdb.Database.Tasks.{insert_immediate_task_row}
use xdb.Process.Common.{add_visibility_task_record_process_execution_status}
use xdb.Process.Publish.{latest_in_session}
use xdb.Process.Decision.{abort_if, nothing_pending}
use xdb.Process.Stop.{StopType, terminate, fail_type, exists_answer, stop_status, stop_running}
use xdb.Process.Stop.Fencing.{get-abort_rows_own, get-abort_rows_other}

-- The process execution `id`, with the row `p`, is the latest one of the process.
pub record IsLatest (db : Db) (key : GoString × GoString) (id : Uuid) (p : ProcessExecutionRow)
    : Type 0 where
  pub latest : get db.latest key ≡ some id
  pub row : get db.processes id ≡ some p
  pub process_id : p.process_id ≡ key.1

select_latest_process_execution-IsLatest :
    (db : Db) (key : GoString × GoString) (id : Uuid) (p : ProcessExecutionRow)
    → IsLatest db key id p
    → select_latest_process_execution db key ≡ ok (id, read_row key p)
unfolding select_latest_process_execution
select_latest_process_execution-IsLatest db key id p h =
    rw (h.latest, joined, h.row, if_pos (string_discrete p.process_id key.1) h.process_id) refl

pub latest_in_session-IsLatest :
    (e : Env) (db : Db) (key : GoString × GoString) (id : Uuid) (p : ProcessExecutionRow)
    → IsLatest e.committed key id p
    → latest_in_session key e db ≡ ok (some (id, read_row key p), db)
unfolding latest_in_session
latest_in_session-IsLatest e db key id p h =
    rw (latest_in_session, select_latest_process_execution-IsLatest e.committed key id p h) refl

abbrev aborted_db : Bool → Uuid → Db → Db
aborted_db none_pending id db =
    if none_pending then db else record db { states = abort_rows id db.states }

abort_if_lem :
    (b : Bool) (id : Uuid) (e : Env) (db : Db)
    → abort_if (not b) id e db ≡ ok (tt, aborted_db b id db)
unfolding abort_if batch_update_async_state_executions_to_abort_running
abort_if_lem true id e db = refl
abort_if_lem false id e db = refl

-- What a stop leaves: the row of the process execution has the status and nothing pending, an
-- unfinished state execution of it is aborted with a new version if any was pending, the rows of other
-- process executions, their states and the timer tasks are kept, and there is a task more, which
-- records the status and the time.
pub record HasStopped (status : ProcessExecutionStatus) (shard : ℕ) (key : GoString × GoString)
    (id : Uuid) (p : ProcessExecutionRow) (now : ℕ) (db db' : Db) : Type 0 where
  pub latest : db'.latest ≡ db.latest
  pub row :
      get db'.processes id
      ≡ some (record p {
        status = status;
        state_execution_sequence_maps = record {
          sequence_map = p.state_execution_sequence_maps.sequence_map;
          pending_execution_map = [];
        };
      })
  pub other_processes : (k : Uuid) → k ≢ id → get db'.processes k ≡ get db.processes k
  pub unfinished :
      (k : GoString × ℕ) (s : AsyncStateExecutionRow)
      → nothing_pending p.state_execution_sequence_maps ≡ false
      → get db.states (id, k) ≡ some s
      → state_status_code s.status < 4
      → get db'.states (id, k) ≡ some (record s { version = s.version + 1; status = aborted })
  pub unchanged : nothing_pending p.state_execution_sequence_maps ≡ true → db'.states ≡ db.states
  pub timer_tasks : db'.timer_tasks ≡ db.timer_tasks
  pub others : (k : StateKey) → k.0 ≢ id → get db'.states k ≡ get db.states k
  pub immediate_tasks :
      db'.immediate_tasks
      ≡ db.immediate_tasks
        ++ record {
          task_sequence = db.next_immediate;
          row = record {
            shard_id = shard;
            task_type = visibility;
            process_execution_id = id;
            state_id = [];
            state_id_sequence = 0;
            info = record no_task_info {
              visibility_info = some (record {
                namespace = key.0;
                process_id = key.1;
                process_type = p.info.process_type;
                process_execution_id = id;
                status = status;
                start_time = none;
                close_time = some now;
              });
            };
          };
        }
          ∷ []

pub stop_running_lem :
    (e : Env) (db : Db) (key : GoString × GoString) (shard : ℕ) (status : ProcessExecutionStatus)
    (id : Uuid) (p : ProcessExecutionRow)
    → get db.processes id ≡ some p
    → (db' : Db) × (stop_running key.0 key.1 shard status id (read_row key p) (for_update id p) e db
        ≡ ok (exists_answer, db'))
      × HasStopped status shard key id p e.now db db'
unfolding stop_running add_visibility_task_record_process_execution_status insert_immediate_task_row
stop_running_lem e db key shard status id p h = rw h (
    rw (◌>>◌, abort_if_lem (nothing_pending p.state_execution_sequence_maps))
      (elim (Bool-cases (nothing_pending p.state_execution_sequence_maps)) [
        | inl none_pending ↦ rw none_pending (
          _,
          refl,
          record {
            latest = refl;
            row = get-set_self db.processes id _;
            other_processes = λ k other. get-set_ne db.processes id k _ (λ same. other (sym same));
            timer_tasks = refl;
            unfinished = λ k s pending. absurd (cc (none_pending, pending));
            unchanged = λ _. refl;
            others = λ k _. refl;
            immediate_tasks = refl;
          },
        )
        | inr pending ↦ rw pending (
          _,
          refl,
          record {
            latest = refl;
            row = get-set_self db.processes id _;
            other_processes = λ k other. get-set_ne db.processes id k _ (λ same. other (sym same));
            timer_tasks = refl;
            unfinished = λ k s _ found open_. get-abort_rows_own db.states (id, k) s found open_;
            unchanged = λ none_pending. absurd (cc (none_pending, pending));
            others = λ k other. get-abort_rows_other id k db.states other;
            immediate_tasks = refl;
          },
        )
      ]))

-- The status that a stop of each type is for
abbrev pub asked_status : StopType → ProcessExecutionStatus
asked_status terminate = ProcessExecutionStatus.terminated
asked_status fail_type = ProcessExecutionStatus.failed

pub stop_status_lem : (type : StopType) → stop_status type ≡ asked_status type
stop_status_lem terminate = refl
stop_status_lem fail_type = refl
