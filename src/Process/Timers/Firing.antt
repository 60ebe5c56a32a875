-- ===== src/Process/Timers/Firing.antt =====
-- persistence/process/process_timer_task_for_timer_command.go: what a fired timer does to the state
-- execution that waits for it.
use xdb.Prelude.{
  ltb, not, ◌&&◌, ℕ, ◌+◌, length, GoMap, arith, Bool, true, false, List, [], ◌∷◌, ◌++◌, none, some,
  ok, ◌≡◌, refl, ap, ◌∙◌, if◌then◌else◌, ◌==◌, nat_key, string_key, pair_key,
}
use xdb.Prelude.Maps.{get, set, is_empty, get-set_self}
use xdb.DataModels.Enums.{wait_until_waiting, execute_running, execute}
use xdb.DataModels.Infos.{CommandRequest, CommandResults, LocalQueueMessageResult, no_task_info}
use xdb.DataModels.LocalQueues.{
  CommandWaitingType, any_of_completion, all_of_completion, empty_command,
}
use xdb.Database.Rows.{
  Db, AsyncStateExecutionRow, ProcessExecutionRow, TimerTaskRow, ImmediateTaskRow,
}
use xdb.Database.Tx.{◌>>◌, ◌>>=◌, Env}
use xdb.Database.Statements.{
  for_update, found_state, update_async_state_execution, update_process_execution,
}
use xdb.Database.Statements.Answers.{
  select_process_execution_for_update-found, select_async_state_execution_for_update-found,
}
use xdb.Database.Tasks.{insert_immediate_task_row, delete_timer_task, drop_if, is_timer}
use xdb.Process.Common.{
  completes, has_completed_wait_until_waiting, update_when_completed_wait_until_waiting,
}
use xdb.Process.Timers.{
  is_waiting, key_of_task, complete_if, fire_timer_command, delete_task,
  do_process_timer_task_for_timer_command_tx,
}

-- The results of the state execution once the timer has fired
abbrev pub fired : TimerTaskRow → AsyncStateExecutionRow → CommandResults
fired t row = record row.wait_until_command_results {
  timer_results = set row.wait_until_command_results.timer_results t.info.timer_command_index true;
}

-- Do the results end the waiting? If it is for any command, there has to be a result, of a timer or of
-- a queue; if it is for all, as many as there are commands.
abbrev enough_for : CommandWaitingType → CommandRequest → CommandResults → Bool
enough_for empty_command c r = true
enough_for any_of_completion c r = not (is_empty r.timer_results && is_empty r.local_queue_results)
enough_for all_of_completion c r =
    length r.timer_results + length r.local_queue_results
    == length c.timer_commands + length c.local_queue_commands

abbrev pub is_enough : TimerTaskRow → AsyncStateExecutionRow → Bool
is_enough t row =
    enough_for row.wait_until_commands.waiting_type row.wait_until_commands (fired t row)

abbrev pub new_tasks : Bool → TimerTaskRow → Db → List ImmediateTaskRow
new_tasks completed t db =
    if completed
    then db.immediate_tasks
      ++ record {
        task_sequence = db.next_immediate;
        row = record {
          shard_id = t.shard_id;
          task_type = execute;
          process_execution_id = t.process_execution_id;
          state_id = t.state_id;
          state_id_sequence = t.state_id_sequence;
          info = no_task_info;
        };
      }
        ∷ []
    else db.immediate_tasks

-- What a fired timer leaves: the row has the result and goes on to Execute if that completes the
-- waiting, for which there is a task then; the timer task is gone, and the process execution is there.
pub record HasFired (t : TimerTaskRow) (row : AsyncStateExecutionRow) (completed : Bool)
    (db db' : Db) : Type 0 where
  pub state :
      get db'.states (key_of_task t)
      ≡ some (record row {
        version = row.version + 1;
        status = if completed then execute_running else wait_until_waiting;
        wait_until_command_results = fired t row;
        last_failure = none;
      })
  pub immediate_tasks : db'.immediate_tasks ≡ new_tasks completed t db
  pub timer_tasks :
      db'.timer_tasks
      ≡ drop_if (is_timer t.shard_id t.fire_time_unix_seconds t.task_sequence) db.timer_tasks
  pub process : (q : ProcessExecutionRow) × (get db'.processes t.process_execution_id ≡ some q)

some_result :
    (timers : GoMap ℕ Bool) (queues : GoMap ℕ (List LocalQueueMessageResult))
    → ltb 0 (length queues + length timers) ≡ not (is_empty timers && is_empty queues)
some_result [] [] = refl
some_result (_ ∷ timers) [] = ground arith
some_result [] (_ ∷ queues) = ground arith
some_result (_ ∷ timers) (_ ∷ queues) = ground arith

completes_lem :
    (type : CommandWaitingType) (c : CommandRequest) (r : CommandResults)
    → completes type
        (length r.local_queue_results + length r.timer_results)
        (length c.local_queue_commands + length c.timer_commands)
      ≡ enough_for type c r
completes_lem CommandWaitingType.any_of_completion c r =
    some_result r.timer_results r.local_queue_results
completes_lem CommandWaitingType.all_of_completion c r = ground arith
completes_lem CommandWaitingType.empty_command c r = refl

has_completed_wait_until_waiting-fired :
    (t : TimerTaskRow) (row : AsyncStateExecutionRow)
    → has_completed_wait_until_waiting row.wait_until_commands (fired t row) ≡ is_enough t row
unfolding has_completed_wait_until_waiting
has_completed_wait_until_waiting-fired t row =
    completes_lem row.wait_until_commands.waiting_type row.wait_until_commands (fired t row)

eq_self : (n : ℕ) → (n == n) ≡ true
eq_self n = ground arith

fire_timer_command_lem :
    (t : TimerTaskRow) (e : Env) (db : Db) (p : ProcessExecutionRow) (row : AsyncStateExecutionRow)
    → get db.processes t.process_execution_id ≡ some p
    → get db.states (key_of_task t) ≡ some row
    → (completed : Bool)
    → has_completed_wait_until_waiting row.wait_until_commands (fired t row) ≡ completed
    → row.status ≡ wait_until_waiting
    → (db' : Db) × (fire_timer_command t
          (for_update t.process_execution_id p)
          (found_state (key_of_task t) row)
          e
          db
        ≡ ok (record { has_new_immediate_task = completed }, db'))
      × HasFired t row completed db db'
unfolding fire_timer_command delete_task update_async_state_execution update_process_execution
    delete_timer_task complete_if update_when_completed_wait_until_waiting insert_immediate_task_row
fire_timer_command_lem t e db p row found_p found true c waiting =
    rw (c, ◌>>=◌, ◌>>◌, found, eq_self row.version, found_p, c)
      (
        _,
        refl,
        record {
          state = get-set_self db.states (key_of_task t) _;
          immediate_tasks = refl;
          timer_tasks = refl;
          process = (_, get-set_self db.processes t.process_execution_id _);
        },
      )
fire_timer_command_lem t e db p row found_p found false c waiting =
    rw (c, ◌>>=◌, ◌>>◌, found, eq_self row.version, found_p, c)
      (
        _,
        refl,
        record {
          state =
              get-set_self db.states (key_of_task t) _
              ∙ ap
                  (λ s. some (record row {
                    version = row.version + 1;
                    status = s;
                    wait_until_command_results = fired t row;
                    last_failure = none;
                  }))
                  waiting;
          immediate_tasks = refl;
          timer_tasks = refl;
          process = (_, get-set_self db.processes t.process_execution_id _);
        },
      )

-- The timer of a command for which its state execution waits stores true at the index of the command
-- and raises the version of the row. The waiting ends if it is for no command, if it is for any command
-- and there is a result now, or if it is for all and there are as many results as commands. The row
-- then runs Execute and there is a task for that in the shard of the timer; otherwise it waits on and
-- no immediate task is added. The timer task is removed in each case.
pub do_process_timer_task_for_timer_command_tx-waiting :
    (t : TimerTaskRow) (e : Env) (db : Db) (p : ProcessExecutionRow) (row : AsyncStateExecutionRow)
    → get db.processes t.process_execution_id ≡ some p
    → get db.states (key_of_task t) ≡ some row
    → row.status ≡ wait_until_waiting
    → let completed = is_enough t row in
      (db' : Db) × (do_process_timer_task_for_timer_command_tx t e db
        ≡ ok (record { has_new_immediate_task = completed }, db'))
      × HasFired t row completed db db'
unfolding do_process_timer_task_for_timer_command_tx fire_timer_command delete_task
    delete_timer_task complete_if update_when_completed_wait_until_waiting insert_immediate_task_row
    update_async_state_execution update_process_execution
do_process_timer_task_for_timer_command_tx-waiting t e db p row found_p found waiting =
    rw
      (
        ◌>>=◌,
        select_process_execution_for_update-found e db t.process_execution_id p found_p,
        select_async_state_execution_for_update-found e db (key_of_task t) row found,
        ap is_waiting waiting,
      )
      (fire_timer_command_lem t e db p row found_p found _
        (has_completed_wait_until_waiting-fired t row) waiting)
