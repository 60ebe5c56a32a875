-- ===== src/Process/Start/Inserted.antt =====
-- persistence/process/start_process.go: the rows that a new process execution adds.
use xdb.Prelude.{
  ℕ, true, List, ◌++◌, Option, none, some, ok, ◌==◌, ◌≡◌, ◌≢◌, refl, sym, subst, ap, ◌∙◌, GoMap,
  GoString, nat_key, string_key, pair_key, Bool-cases, inl, inr, arith, Any, Any-append_left,
  Any-append_right,
}
use xdb.Prelude.Maps.{get, set, get-set_self}
use xdb.DataModels.Sequences.{start_new_state_execution}
use xdb.DataModels.Infos.{Uuid}
use xdb.Database.Rows.{Db, ProcessExecutionRow, StateKey, AsyncStateExecutionRow, ImmediateTaskRow}
use xdb.Database.Tx.{◌>>◌, ◌>>=◌, Env}
use xdb.Database.Statements.Answers.{
  insert_latest_process_execution-absent, update_latest_process_execution-found,
  insert_process_execution_row-absent, insert_async_state_execution_row-absent,
}
use xdb.Database.Tasks.{insert_immediate_task_row, insert_timer_task}
use xdb.Process.Common.{
  insert_async_state_execution, insert_immediate_task,
  add_visibility_task_record_process_execution_status,
}
use xdb.Process.Start.Begun.{
  first_maps, running_row, first_state, running_task, timeout_timer, StartsWith,
}
use xdb.Process.Start.{
  StartProcessRequest, started, key_of, insert_start_state, insert_process_execution,
  insert_brand_new_latest_process_execution, update_latest_and_insert_new_process_execution,
  insert_timeout_timer, start_brand_new, start_after_previous,
}

-- No row has the UUID that is drawn for the new process execution.
pub record IsFresh (db : Db) (id : Uuid) : Type 0 where
  pub process : get db.processes id ≡ none
  pub states : (k : GoString × ℕ) → get db.states (id, k) ≡ none

-- Neither table of process executions has changed.
abbrev pub SameProcesses : Db → Db → Type 0
SameProcesses db db' = (db'.latest ≡ db.latest) × (db'.processes ≡ db.processes)

StartsWith-append :
    (r : StartProcessRequest) (id : Uuid) (states : GoMap StateKey AsyncStateExecutionRow)
    (tasks more : List ImmediateTaskRow) (o : Option GoString)
    → StartsWith r id states tasks o
    → StartsWith r id states (tasks ++ more) o
StartsWith-append r id states tasks more none h = tt
StartsWith-append r id states tasks more (some s) h = (h.0, Any-append_left _ tasks more h.1)

insert_start_state_lem :
    (e : Env) (db : Db) (r : StartProcessRequest) (id : Uuid) (o : Option GoString)
    → IsFresh db id
    → (db' : Db) × (insert_start_state r id o e db ≡ ok (first_maps o, db'))
      × SameProcesses db db'
      × StartsWith r id db'.states db'.immediate_tasks o
unfolding insert_start_state insert_immediate_task insert_immediate_task_row
    start_new_state_execution get set
insert_start_state_lem e db r id none h = (db, refl, (refl, refl), tt)
insert_start_state_lem e db r id (some s) h =
    rw
      (
        ◌>>◌,
        insert_async_state_execution,
        insert_async_state_execution_row-absent e db (id, (s, 1)) (first_state r) (h.states _),
      )
      (
        _,
        refl,
        (refl, refl),
        (
          get-set_self db.states (id, (s, 1)) (first_state r),
          Any-append_right _ db.immediate_tasks _ (inl refl),
        ),
      )

-- What a start leaves of the tables, given the process executions before.
pub record HasRow (r : StartProcessRequest) (id : Uuid) (now : ℕ) (db : Db)
    (before : GoMap Uuid ProcessExecutionRow) (db' : Db) : Type 0 where
  pub latest : db'.latest ≡ set db.latest (key_of r.request) id
  pub processes : db'.processes ≡ set before id (running_row r now)
  pub state : StartsWith r id db'.states db'.immediate_tasks r.start_state_id
  pub recorded : Any (λ t. t.row ≡ running_task r id now) db'.immediate_tasks

pub insert_process_execution_lem :
    (e : Env) (db0 db : Db) (r : StartProcessRequest) (id : Uuid)
    → IsFresh db id
    → db.latest ≡ set db0.latest (key_of r.request) id
    → (db' : Db) × (insert_process_execution r id e db ≡ ok (true, db'))
      × HasRow r id e.now db0 db.processes db'
unfolding insert_process_execution insert_immediate_task_row
    add_visibility_task_record_process_execution_status
insert_process_execution_lem e db0 db r id h latest =
    let (db1, ran, same, state) = insert_start_state_lem e db r id r.start_state_id h in
    let absent : get db1.processes id ≡ none = ap (λ m. get m id) same.1 ∙ h.process in
    rw (◌>>=◌, ran, ◌>>◌, insert_process_execution_row-absent e db1 id (running_row r e.now) absent)
      (
        _,
        refl,
        record {
          latest = same.0 ∙ latest;
          processes = ap (λ m. set m id (running_row r e.now)) same.1;
          state = StartsWith-append r id db1.states db1.immediate_tasks _ r.start_state_id state;
          recorded = Any-append_right _ db1.immediate_tasks _ (inl refl);
        },
      )

-- The timer of the process timeout is there, if the process has one.
abbrev pub TimesOut : StartProcessRequest → Uuid → Db → Type 0
TimesOut r id db =
    r.timeout_time_unix_seconds ≢ 0 → Any (λ t. t.row ≡ timeout_timer r id) db.timer_tasks

-- Of the tables, only the timer tasks may have changed, and the timer of a timeout is there.
pub record OnlyTimed (r : StartProcessRequest) (id : Uuid) (db db' : Db) : Type 0 where
  pub latest : db'.latest ≡ db.latest
  pub processes : db'.processes ≡ db.processes
  pub states : db'.states ≡ db.states
  pub immediate_tasks : db'.immediate_tasks ≡ db.immediate_tasks
  pub timed : TimesOut r id db'

pub insert_timeout_timer_lem :
    (e : Env) (db : Db) (r : StartProcessRequest) (id : Uuid)
    → (db' : Db) × (insert_timeout_timer r id e db ≡ ok (tt, db')) × OnlyTimed r id db db'
unfolding insert_timeout_timer insert_timer_task
insert_timeout_timer_lem e db r id = elim (Bool-cases (r.timeout_time_unix_seconds == 0)) [
  | inl none_ ↦ rw none_ (
    _,
    refl,
    record {
      latest = refl;
      processes = refl;
      states = refl;
      immediate_tasks = refl;
      timed = λ some_. absurd (ground (arith, none_, some_));
    },
  )
  | inr some_ ↦ rw some_ (
    _,
    refl,
    record {
      latest = refl;
      processes = refl;
      states = refl;
      immediate_tasks = refl;
      timed = λ _. Any-append_right _ db.timer_tasks _ (inl refl);
    },
  )
]

pub HasRow-OnlyTimed :
    (r : StartProcessRequest) (id : Uuid) (now : ℕ) (db : Db)
    (processes : GoMap Uuid ProcessExecutionRow) (db1 db2 : Db)
    → HasRow r id now db processes db1
    → OnlyTimed r id db1 db2
    → HasRow r id now db processes db2
HasRow-OnlyTimed r id now db processes db1 db2 rows same = record {
  latest = same.latest ∙ rows.latest;
  processes = same.processes ∙ rows.processes;
  state =
      subst (λ states. StartsWith r id states db2.immediate_tasks r.start_state_id)
        (sym same.states)
        (subst (λ tasks. StartsWith r id db1.states tasks r.start_state_id)
          (sym same.immediate_tasks) rows.state);
  recorded =
      subst (Any (λ t. t.row ≡ running_task r id now)) (sym same.immediate_tasks) rows.recorded;
}

pub start_brand_new_lem :
    (e : Env) (db : Db) (r : StartProcessRequest) (id : Uuid)
    → IsFresh db id
    → get db.latest (key_of r.request) ≡ none
    → (db' : Db) × (start_brand_new r id e db ≡ ok (started id true, db'))
      × HasRow r id e.now db db.processes db'
      × TimesOut r id db'
unfolding start_brand_new
start_brand_new_lem e db r id h absent =
    let db0 : Db = record db { latest = set db.latest (key_of r.request) id } in
    let (db1, inserted, rows) =
      insert_process_execution_lem e db db0 r id (record { process = h.process; states = h.states })
        refl in
    let (db2, timed, same) = insert_timeout_timer_lem e db1 r id in
    (
      db2,
      rw
          (
            ◌>>=◌,
            insert_brand_new_latest_process_execution,
            ◌>>◌,
            insert_latest_process_execution-absent e db (key_of r.request) id absent,
            inserted,
            timed,
          )
          refl,
      HasRow-OnlyTimed r id e.now db db.processes db1 db2 rows same,
      same.timed,
    )

pub update_latest_and_insert_new_process_execution_lem :
    (e : Env) (db : Db) (r : StartProcessRequest) (id previous : Uuid)
    → IsFresh db id
    → get db.latest (key_of r.request) ≡ some previous
    → (db' : Db) × (update_latest_and_insert_new_process_execution r id e db ≡ ok (true, db'))
      × HasRow r id e.now db db.processes db'
unfolding update_latest_and_insert_new_process_execution
update_latest_and_insert_new_process_execution_lem e db r id previous h found =
    let db0 : Db = record db { latest = set db.latest (key_of r.request) id } in
    let (db1, inserted, rows) =
      insert_process_execution_lem e db db0 r id (record { process = h.process; states = h.states })
        refl in
    (
      db1,
      rw
          (
            ◌>>◌,
            update_latest_process_execution-found e db (key_of r.request) id previous found,
            inserted,
          )
          refl,
      rows,
    )

pub start_after_previous_lem :
    (e : Env) (db : Db) (r : StartProcessRequest) (id previous : Uuid)
    → IsFresh db id
    → get db.latest (key_of r.request) ≡ some previous
    → (db' : Db) × (start_after_previous r id e db ≡ ok (started id true, db'))
      × HasRow r id e.now db db.processes db'
      × TimesOut r id db'
unfolding start_after_previous
start_after_previous_lem e db r id previous h found =
    let (db1, inserted, rows) =
      update_latest_and_insert_new_process_execution_lem e db r id previous h found in
    let (db2, timed, same) = insert_timeout_timer_lem e db1 r id in
    (
      db2,
      rw (◌>>=◌, inserted, ◌>>◌, timed) refl,
      HasRow-OnlyTimed r id e.now db db.processes db1 db2 rows same,
      same.timed,
    )
