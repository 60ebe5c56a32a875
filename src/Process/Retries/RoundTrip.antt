-- ===== src/Process/Retries/RoundTrip.antt =====
-- persistence/process/backoff_immediate_task.go with convert_timer_task_to_immediate_task.go: a task
-- that backs off comes back as the task that it was.
use xdb.Prelude.{
  ℕ, ◌<◌, arith, Bool, true, false, List, [], ◌∷◌, ◌++◌, some, ok, ◌≡◌, refl, ap, nat_key,
  string_key, pair_key, All,
}
use xdb.Prelude.Maps.{get}
use xdb.DataModels.Infos.{WorkerTaskBackoffInfo, no_task_info}
use xdb.Database.Rows.{Db, AsyncStateExecutionRow, TimerTaskRow}
use xdb.Database.Tx.{◌>>◌, ◌>>=◌, Env}
use xdb.Database.Statements.Answers.{update_async_state_execution_without_commands-current}
use xdb.Database.Tasks.{
  insert_timer_task, delete_immediate_task, insert_immediate_task_row, delete_timer_task, drop_if,
  is_immediate, is_timer,
}
use xdb.Process.Timers.{do_convert_timer_task_to_immediate_task_tx, convert_as, delete_task}
use xdb.Process.Retries.{
  BackoffImmediateTaskRequest, do_backoff_immediate_task_tx, backoff_with, backoff_state,
  backoff_timer,
}

drop_if-last {ℓ} :
    {A : Type ℓ} (p : A → Bool) (xs : List A) (x : A)
    → All (λ y. p y ≡ false) xs
    → p x ≡ true
    → drop_if p (xs ++ x ∷ []) ≡ xs
drop_if-last p [] x h e = rw e refl
drop_if-last p (y ∷ ys) x h e = rw h.0 (ap (λ zs. y ∷ zs) (drop_if-last p ys x h.1 e))

-- No timer task has taken the next value of the sequence.
abbrev pub IsNextTimer : ℕ → List TimerTaskRow → Type 0
IsNextTimer n [] = Unit
IsNextTimer n (t ∷ ts) = (t.task_sequence < n) × IsNextTimer n ts

IsNextTimer-others :
    (shard fire n : ℕ) (ts : List TimerTaskRow)
    → IsNextTimer n ts
    → All (λ t. is_timer shard fire n t ≡ false) ts
IsNextTimer-others shard fire n [] h = tt
IsNextTimer-others shard fire n (t ∷ ts) (below, h) =
    (ground (arith, below), IsNextTimer-others shard fire n ts h)

-- When the worker's version is the current one, the back-off replaces the immediate task with a
-- timer task; when that fires, the timer tasks are those from before, and the task is there again
-- with its attempts, under a new sequence.
pub do_convert-do_backoff :
    (r : BackoffImmediateTaskRequest) (info : WorkerTaskBackoffInfo) (row : AsyncStateExecutionRow)
    (e e' : Env) (db : Db)
    → r.task.info.worker_task_backoff_info ≡ some info
    → get db.states (r.task.process_execution_id, (r.task.state_id, r.task.state_id_sequence))
      ≡ some row
    → row.version ≡ r.previous_version
    → IsNextTimer db.next_timer db.timer_tasks
    → let t : TimerTaskRow = record { task_sequence = db.next_timer; row = backoff_timer r info } in
      let kept = drop_if (is_immediate r.task.shard_id r.task.task_sequence) db.immediate_tasks in
      (db1 db2 : Db) × (do_backoff_immediate_task_tx r e db ≡ ok (tt, db1))
      × (do_convert_timer_task_to_immediate_task_tx t e' db1 ≡ ok (tt, db2))
      × (db1.timer_tasks ≡ db.timer_tasks ++ t ∷ [])
      × (db1.immediate_tasks ≡ kept)
      × (db2.timer_tasks ≡ db.timer_tasks)
      × (db2.immediate_tasks
          ≡ kept
            ++ record {
              task_sequence = db.next_immediate;
              row = record r.task.row {
                info = record no_task_info { worker_task_backoff_info = some info };
              };
            }
              ∷ [])
unfolding do_backoff_immediate_task_tx backoff_with do_convert_timer_task_to_immediate_task_tx
    convert_as delete_task insert_timer_task delete_immediate_task insert_immediate_task_row
    delete_timer_task
do_convert-do_backoff r info row e e' db has found current next =
    let updated =
      update_async_state_execution_without_commands-current e db (backoff_state r info e.now) row
        found current in
    rw (has, ◌>>=◌, ◌>>◌, updated)
      (
        _,
        _,
        refl,
        refl,
        refl,
        refl,
        drop_if-last _ db.timer_tasks _
            (IsNextTimer-others r.task.shard_id r.fire_timestamp_seconds db.next_timer
              db.timer_tasks next)
            (ground arith),
        refl,
      )
