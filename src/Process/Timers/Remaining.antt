-- ===== src/Process/Timers/Remaining.antt =====
-- persistence/process/process_timer_task_for_timer_command.go: a timer that comes when the waiting of
-- its state execution is over.
use xdb.Prelude.{
  Any, subst, sym, ◌≢◌, inl, inr, Bool-cases, arith, Bool, true, false, List, [], ◌∷◌, some, ok,
  ◌≡◌, refl, ap, ◌∙◌, if◌then◌else◌, nat_key, string_key, pair_key,
}
use xdb.Prelude.Maps.{get}
use xdb.DataModels.Enums.{wait_until_waiting, execute_running}
use xdb.Database.Rows.{Db, AsyncStateExecutionRow, ProcessExecutionRow, TimerTaskRow}
use xdb.Database.Tx.{◌>>=◌, Env}
use xdb.Database.Statements.Answers.{
  select_process_execution_for_update-found, select_async_state_execution_for_update-found,
}
use xdb.Database.Tasks.{drop_if, is_timer}
use xdb.Process.Timers.Firing.{is_enough, do_process_timer_task_for_timer_command_tx-waiting}
use xdb.Process.Timers.{is_waiting, key_of_task, do_process_timer_task_for_timer_command_tx}

-- Of a timer whose state execution does not wait
do_process_timer_task_for_timer_command_tx-late :
    (t : TimerTaskRow) (e : Env) (db : Db) (p : ProcessExecutionRow) (row : AsyncStateExecutionRow)
    → get db.processes t.process_execution_id ≡ some p
    → get db.states (key_of_task t) ≡ some row
    → is_waiting row.status ≡ false
    → do_process_timer_task_for_timer_command_tx t e db
      ≡ ok (record { has_new_immediate_task = false }, db)
unfolding do_process_timer_task_for_timer_command_tx
do_process_timer_task_for_timer_command_tx-late t e db p row found_p found late =
    rw
      (
        ◌>>=◌,
        select_process_execution_for_update-found e db t.process_execution_id p found_p,
        select_async_state_execution_for_update-found e db (key_of_task t) row found,
        late,
      )
      refl

Any-drop_if :
    (p : TimerTaskRow → Bool) (x : TimerTaskRow) (xs : List TimerTaskRow)
    → p x ≡ false
    → Any (λ y. y ≡ x) xs
    → Any (λ y. y ≡ x) (drop_if p xs)
Any-drop_if p x [] keep none_ = absurd none_
Any-drop_if p x (y ∷ ys) keep (inl same) = rw (ap p same ∙ keep) (inl same)
Any-drop_if p x (y ∷ ys) keep (inr there) = elim (Bool-cases (p y)) [
  | inl goes ↦ rw goes (Any-drop_if p x ys keep there)
  | inr stays ↦ rw stays (inr (Any-drop_if p x ys keep there))
]

is_timer_other :
    (t x : TimerTaskRow)
    → x.task_sequence ≢ t.task_sequence
    → is_timer t.shard_id t.fire_time_unix_seconds t.task_sequence x ≡ false
is_timer_other t x other = ground (arith, other)

-- Of two timer tasks of one state execution that waits, the first of which is enough to end the
-- waiting, the second one, processed after it, is answered without an error, changes no table, and
-- remains in the table of timer tasks.
pub do_process_timer_task_for_timer_command_tx-remains :
    (t t' : TimerTaskRow) (e e' : Env) (db : Db) (p : ProcessExecutionRow)
    (row : AsyncStateExecutionRow)
    → get db.processes t.process_execution_id ≡ some p
    → get db.states (key_of_task t) ≡ some row
    → row.status ≡ wait_until_waiting
    → is_enough t row ≡ true
    → key_of_task t' ≡ key_of_task t
    → t'.task_sequence ≢ t.task_sequence
    → Any (λ x. x ≡ t') db.timer_tasks
    → (db' : Db) × (do_process_timer_task_for_timer_command_tx t e db
        ≡ ok (record { has_new_immediate_task = true }, db'))
      × (do_process_timer_task_for_timer_command_tx t' e' db'
          ≡ ok (record { has_new_immediate_task = false }, db'))
      × Any (λ x. x ≡ t') db'.timer_tasks
do_process_timer_task_for_timer_command_tx-remains t t' e e' db p row found_p found waiting enough
      same other there =
    let (db', first, fires) =
      do_process_timer_task_for_timer_command_tx-waiting t e db p row found_p found waiting in
    let (q, q_found) = fires.process in
    (
      db',
      first ∙ ap (λ b. ok (record { has_new_immediate_task = b }, db')) enough,
      do_process_timer_task_for_timer_command_tx-late t' e' db' q _
          (ap (λ k. get db'.processes k.0) same ∙ q_found) (ap (get db'.states) same ∙ fires.state)
          (ap (λ b. is_waiting (if b then execute_running else wait_until_waiting)) enough),
      subst (Any (λ x. x ≡ t')) (sym fires.timer_tasks)
          (Any-drop_if _ t' db.timer_tasks (is_timer_other t t' other) there),
    )
