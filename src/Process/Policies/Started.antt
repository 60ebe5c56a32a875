-- ===== src/Process/Policies/Started.antt =====
-- persistence/process/start_process.go: what a start of a process leaves in the tables.
use xdb.Prelude.{
  ℕ, false, Option, List, Any, none, some, ◌≡◌, ◌≢◌, sym, ap, ◌∙◌, subst, GoMap, GoString, nat_key,
  string_key, pair_key,
}
use xdb.Prelude.Maps.{get, set, get-set_self, get-set_ne}
use xdb.DataModels.Enums.{is_running}
use xdb.DataModels.Infos.{Uuid}
use xdb.Database.Rows.{Db, ProcessExecutionRow, StateKey, AsyncStateExecutionRow, ImmediateTaskRow}
use xdb.Database.Statements.{abort_rows}
use xdb.Process.Start.{StartProcessRequest, key_of}
use xdb.Process.Start.Begun.{running_row, running_task, StartsWith}
use xdb.Process.Stop.Fencing.{get-abort_rows_other}
use xdb.Process.Start.Inserted.{HasRow, TimesOut}

-- The process execution, if there is one, has a row that is not running.
abbrev pub IsClosed : GoMap Uuid ProcessExecutionRow → Option (Uuid × ProcessExecutionRow) → Type 0
IsClosed processes none = Unit
IsClosed processes (some (id, _)) =
    (p : ProcessExecutionRow) × (get processes id ≡ some p) × (is_running p.status ≡ false)

-- What a start leaves: the new execution is the latest one and has the row of a running process, its
-- start state has a row and a task if the request names one, there is a task that records the process
-- execution as running and a timer if it has a timeout, and the one that was the latest before is closed.
pub record HasStarted (r : StartProcessRequest) (id : Uuid) (now : ℕ)
    (latest : Option (Uuid × ProcessExecutionRow)) (db' : Db) : Type 0 where
  pub is_latest : get db'.latest (key_of r.request) ≡ some id
  pub row : get db'.processes id ≡ some (running_row r now)
  pub state : StartsWith r id db'.states db'.immediate_tasks r.start_state_id
  pub recorded : Any (λ t. t.row ≡ running_task r id now) db'.immediate_tasks
  pub timed : TimesOut r id db'
  pub previous : IsClosed db'.processes latest

IsClosed-set :
    (m : GoMap Uuid ProcessExecutionRow) (id : Uuid) (p : ProcessExecutionRow)
    (latest : Option (Uuid × ProcessExecutionRow))
    → get m id ≡ none
    → IsClosed m latest
    → IsClosed (set m id p) latest
IsClosed-set m id p none absent closed = tt
IsClosed-set m id p (some (previous, _)) absent (q, found, h) =
    (q, get-set_ne m id previous p (λ same. cc (same, absent, found)) ∙ found, h)

pub HasRow-HasStarted :
    (r : StartProcessRequest) (id : Uuid) (now : ℕ) (latest : Option (Uuid × ProcessExecutionRow))
    (db db' : Db) (processes : GoMap Uuid ProcessExecutionRow)
    → get processes id ≡ none
    → IsClosed processes latest
    → HasRow r id now db processes db'
    → TimesOut r id db'
    → HasStarted r id now latest db'
HasRow-HasStarted r id now latest db db' processes absent closed rows timed = record {
  is_latest =
      ap (λ m. get m (key_of r.request)) rows.latest ∙ get-set_self db.latest (key_of r.request) id;
  row = ap (λ m. get m id) rows.processes ∙ get-set_self processes id (running_row r now);
  state = rows.state;
  recorded = rows.recorded;
  timed = timed;
  previous =
      subst (λ m. IsClosed m latest) (sym rows.processes)
        (IsClosed-set processes id (running_row r now) latest absent closed);
}

-- The abort of the states of another process execution leaves the rows of the new one.
StartsWith-abort_rows :
    (r : StartProcessRequest) (id previous : Uuid) (states : GoMap StateKey AsyncStateExecutionRow)
    (tasks : List ImmediateTaskRow) (o : Option GoString)
    → id ≢ previous
    → StartsWith r id states tasks o
    → StartsWith r id (abort_rows previous states) tasks o
StartsWith-abort_rows r id previous states tasks none other h = tt
StartsWith-abort_rows r id previous states tasks (some s) other h =
    (get-abort_rows_other previous (id, (s, 1)) states other ∙ h.0, h.1)

pub HasRow-abort_rows :
    (r : StartProcessRequest) (id : Uuid) (now : ℕ) (db : Db)
    (before : GoMap Uuid ProcessExecutionRow) (db' : Db) (previous : Uuid)
    → id ≢ previous
    → HasRow r id now db before db'
    → HasRow r id now db before (record db' { states = abort_rows previous db'.states })
HasRow-abort_rows r id now db before db' previous other rows = record {
  latest = rows.latest;
  processes = rows.processes;
  state =
      StartsWith-abort_rows r id previous db'.states db'.immediate_tasks r.start_state_id other
        rows.state;
  recorded = rows.recorded;
}
