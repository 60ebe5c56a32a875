-- ===== src/Engine/TaskLoop/Deferring.antt =====
-- engine/immediate_task_concurrent_processor.go with engine/timer_task_concurrent_processor.go: a
-- task that is put off, and comes back when its timer is processed.
use xdb.Prelude.{
  ℕ, none, GoString, true, [], ◌∷◌, ◌++◌, some, Result, ok, ◌≡◌, refl, ◌∙◌, ok-injective, sym,
  subst, nat_key, string_key, pair_key, ap,
}
use xdb.Prelude.Maps.{get}
use xdb.DataModels.Enums.{ImmediateTaskType, worker_task_backoff}
use xdb.DataModels.Infos.{no_task_info, no_timer_info, WorkerTaskBackoffInfo}
use xdb.Database.Rows.{Db, AsyncStateExecutionRow, ImmediateTaskRow, TimerTaskRow}
use xdb.Database.Tasks.{drop_if, is_immediate}
use xdb.Database.Tx.{Done, Connection, AppAnswer, Tx, Env, run_tx, finish, always_commits}
use xdb.Process.Retries.{backoff_immediate_task, do_backoff_immediate_task_tx, backoff_timer}
use xdb.Process.Retries.RoundTrip.{IsNextTimer, do_convert-do_backoff}
use xdb.Process.Timers.{
  convert_timer_task_to_immediate_task, do_convert_timer_task_to_immediate_task_tx,
}
use xdb.Engine.Actions.{
  Outcome, Notification, new_timer_tasks, new_immediate_tasks, continue, ◌>>◌, call, notify,
}
use xdb.Engine.WorkerCalls.{ProcessorEnv, check_retry}
use xdb.Engine.ImmediateTasks.{
  FailedAttempt, key_of_task, fire_time, backoff_request, retry_task, retry_or_recover,
}
use xdb.Engine.TimerTasks.{
  process_timer_task, process_timer_task_worker_task_backoff, new_task_of_timer,
}

abbrev pub IsOnline : Connection → Type 0
IsOnline c = (c.begins ≡ true) × (c.commits ≡ true)

run_tx-ok :
    {A : Type 0} (c : Connection) (tx : Tx A) (now : ℕ) (app : AppAnswer) (db db' : Db) (a : A)
    → IsOnline c
    → tx (record { committed = db; now = now; app_answer = app }) db ≡ ok (a, db')
    → run_tx c always_commits tx now app db ≡ (ok a, db')
unfolding run_tx finish
run_tx-ok c tx now app db db' a (begins, commits) e = rw (begins, e, commits) refl

abbrev env_of : ProcessorEnv → Db → Env
env_of env db = record { committed = db; now = env.clock 3; app_answer = env.app_answer }

abbrev answered : Db → Notification → Outcome Done
answered db n = record { result = ok tt; tables = db; sent = n ∷ [] }

call-notify :
    (op : Db → Result Done × Db) (n : Notification) (db db' : Db)
    → op db ≡ (ok tt, db')
    → (call op >> notify n) db ≡ answered db' n
call-notify op n db db' e =
    ap
      (λ (r : Result Done × Db).
        continue (record { result = r.0; tables = r.1; sent = [] }) r.0 (λ _. notify n))
      e

-- What a task that is put off until a time leaves behind: its timer, and once that is processed the
-- task again, with its back-off info, under a new sequence.
abbrev pub IsDeferred :
    ProcessorEnv
    → ImmediateTaskRow
    → ImmediateTaskType
    → GoString × GoString
    → WorkerTaskBackoffInfo
    → ℕ
    → Db
    → Outcome Done
    → Type 0
IsDeferred env task type partition backoff fire db o =
    let t : TimerTaskRow = record {
      task_sequence = db.next_timer;
      row = record {
        shard_id = task.shard_id;
        fire_time_unix_seconds = fire;
        task_type = worker_task_backoff;
        process_execution_id = task.process_execution_id;
        state_id = task.state_id;
        state_id_sequence = task.state_id_sequence;
        info = record no_timer_info {
          worker_task_backoff_info = some backoff;
          worker_task_type = some type;
        };
      };
    } in
    let kept = drop_if (is_immediate task.shard_id task.task_sequence) db.immediate_tasks in
    (db1 db2 : Db) × (o
      ≡ answered db1
          (new_timer_tasks task.shard_id (some partition) task.process_execution_id (fire ∷ [])))
    × (process_timer_task env t db1
        ≡ answered db2 (new_immediate_tasks task.shard_id none task.process_execution_id))
    × (db1.timer_tasks ≡ db.timer_tasks ++ t ∷ [])
    × (db1.immediate_tasks ≡ kept)
    × (db2.timer_tasks ≡ db.timer_tasks)
    × (db2.immediate_tasks
        ≡ kept
          ++ record {
            task_sequence = db.next_immediate;
            row = record task.row {
              info = record no_task_info { worker_task_backoff_info = some backoff };
            };
          }
            ∷ [])

-- The deferral that the code's helpers describe
abbrev pub BacksOff : ProcessorEnv → FailedAttempt → ℕ → Db → Outcome Done → Type 0
BacksOff env f interval db o =
    IsDeferred env f.task f.task.task_type (f.prep.info.namespace, f.prep.info.process_id) f.backoff
      (fire_time env interval) db o

abbrev backed_off : ProcessorEnv → FailedAttempt → ℕ → Db → TimerTaskRow
backed_off env f interval db = record {
  task_sequence = db.next_timer;
  row = backoff_timer (backoff_request env f interval) f.backoff;
}

convert_answers :
    (env : ProcessorEnv) (t : TimerTaskRow) (db db' : Db)
    → IsOnline env.connection
    → do_convert_timer_task_to_immediate_task_tx t (env_of env db) db ≡ ok (tt, db')
    → (process_timer_task_worker_task_backoff env t) db ≡ answered db' (new_task_of_timer t)
unfolding process_timer_task_worker_task_backoff convert_timer_task_to_immediate_task
convert_answers env t db db' on e =
    call-notify (convert_timer_task_to_immediate_task env.connection t (env.clock 3) env.app_answer)
      (new_task_of_timer t) db db'
      (run_tx-ok env.connection (do_convert_timer_task_to_immediate_task_tx t) (env.clock 3)
        env.app_answer db db' tt on e)

retry_task-BacksOff :
    (env : ProcessorEnv) (f : FailedAttempt) (interval : ℕ) (row : AsyncStateExecutionRow) (db : Db)
    → IsOnline env.connection
    → f.task.info.worker_task_backoff_info ≡ some f.backoff
    → get db.states (key_of_task f.task) ≡ some row
    → row.version ≡ f.prep.previous_version
    → IsNextTimer db.next_timer db.timer_tasks
    → BacksOff env f interval db (retry_task env f interval db)
unfolding retry_task backoff_immediate_task process_timer_task
retry_task-BacksOff env f interval row db on has found current next =
    let r = backoff_request env f interval in
    let (db1, _, first, _, _, _, _, _) =
      do_convert-do_backoff r f.backoff row (env_of env db) (env_of env db) db has found current
        next in
    let (db1', db2, same, converted, timers, tasks, timers', tasks') =
      do_convert-do_backoff r f.backoff row (env_of env db) (env_of env db1) db has found current
        next in
    let p : db1' ≡ db1 = cc (ok-injective (sym same ∙ first)) in
    (
      db1',
      db2,
      call-notify (backoff_immediate_task env.connection r (env.clock 3) env.app_answer) _ db db1' (
          run_tx-ok env.connection (do_backoff_immediate_task_tx r) (env.clock 3) env.app_answer db
            db1' tt on same),
      convert_answers env (backed_off env f interval db) db1' db2 on (
          subst
            (λ d.
              do_convert_timer_task_to_immediate_task_tx (backed_off env f interval db)
                (env_of env d) db1'
              ≡ ok (tt, db2))
            (sym p) converted),
      timers,
      tasks,
      timers',
      tasks',
    )

pub retry_or_recover-BacksOff :
    (env : ProcessorEnv) (f : FailedAttempt) (interval : ℕ) (row : AsyncStateExecutionRow) (db : Db)
    → IsOnline env.connection
    → check_retry env f.task.task_type f.backoff f.prep.info ≡ ok (interval, true)
    → f.task.info.worker_task_backoff_info ≡ some f.backoff
    → get db.states (key_of_task f.task) ≡ some row
    → row.version ≡ f.prep.previous_version
    → IsNextTimer db.next_timer db.timer_tasks
    → BacksOff env f interval db (retry_or_recover env f db)
unfolding retry_or_recover
retry_or_recover-BacksOff env f interval row db on again has found current next =
    rw again (retry_task-BacksOff env f interval row db on has found current next)
