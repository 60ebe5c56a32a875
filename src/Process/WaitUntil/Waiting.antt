-- ===== src/Process/WaitUntil/Waiting.antt =====
-- updateWaitUntilExecution of persistence/process/wait_until.go, for a request that waits for timers
-- only.
use xdb.Prelude.{
  ℕ, suc, ◌+◌, not, arith, true, false, List, [], ◌∷◌, ◌++◌, append_assoc, append-nil, none, some,
  ok, ◌≡◌, refl, sym, ap, ◌∙◌, nat_key, string_key, pair_key, ◌==◌,
}
use xdb.Prelude.Maps.{get, set, get-set_self, is_empty}
use xdb.DataModels.Enums.{wait_until_waiting, timer_command}
use xdb.DataModels.Infos.{TimerCommand, delay_in_seconds, no_timer_info}
use xdb.Database.Rows.{Db, AsyncStateExecutionRow, TimerTaskRow}
use xdb.Database.Tx.{◌>>◌, ◌>>=◌, Env, lift}
use xdb.Database.Statements.{found_state, updated_state, update_async_state_execution}
use xdb.Database.Statements.Answers.{select_async_state_execution_for_update-found}
use xdb.Database.Tasks.{insert_timer_task}
use xdb.Process.Common.{
  get_dedup_id_to_local_queue_message_map,
  update_command_results_with_newly_consumed_local_queue_messages,
}
use xdb.Process.Timers.{complete_if}
use xdb.Process.WaitUntil.{
  ProcessWaitUntilExecutionRequest, ProcessWaitUntilExecutionResponse, read_queues, insert_timers,
  write_queues, waiting_row, update_wait_until_execution,
}

-- The timer task of a command.
abbrev pub timer_at : ProcessWaitUntilExecutionRequest → ℕ → ℕ → ℕ → TimerCommand → TimerTaskRow
timer_at r now seq i c = record {
  task_sequence = seq;
  row = record {
    shard_id = r.task_shard_id;
    fire_time_unix_seconds = now + delay_in_seconds c;
    task_type = timer_command;
    process_execution_id = r.key.0;
    state_id = r.key.1.0;
    state_id_sequence = r.key.1.1;
    info = record no_timer_info { timer_command_index = i };
  };
}

-- The timer tasks of the commands from index `i` on.
abbrev pub timers_from :
    ProcessWaitUntilExecutionRequest → ℕ → ℕ → ℕ → List TimerCommand → List TimerTaskRow
timers_from r now seq i [] = []
timers_from r now seq i (c ∷ cs) = timer_at r now seq i c ∷ timers_from r now (suc seq) (suc i) cs

abbrev pub fires_of : ℕ → List TimerCommand → List ℕ
fires_of now [] = []
fires_of now (c ∷ cs) = (now + delay_in_seconds c) ∷ fires_of now cs

insert_timers_lem :
    (r : ProcessWaitUntilExecutionRequest) (e : Env) (cs : List TimerCommand) (i : ℕ) (db : Db)
    → (db' : Db) × (insert_timers r cs i e db ≡ ok (fires_of e.now cs, db'))
      × (db'.states ≡ db.states)
      × (db'.timer_tasks ≡ db.timer_tasks ++ timers_from r e.now db.next_timer i cs)
unfolding insert_timers insert_timer_task
insert_timers_lem r e [] i db = (db, refl, refl, sym (append-nil db.timer_tasks))
insert_timers_lem r e (c ∷ cs) i db =
    let t = timer_at r e.now db.next_timer i c in
    let next : Db = record db {
      timer_tasks = db.timer_tasks ++ t ∷ [];
      next_timer = suc db.next_timer;
    } in
    let (db', ran, states, timers) = insert_timers_lem r e cs (suc i) next in
    (
      db',
      rw (◌>>=◌, ◌>>◌, ran) refl,
      states,
      timers
          ∙ append_assoc db.timer_tasks (t ∷ [])
              (timers_from r e.now (suc db.next_timer) (suc i) cs),
    )

eq_self : (n : ℕ) → (n == n) ≡ true
eq_self n = ground arith

-- An answer without commands on local queues, to a state execution that has a row, succeeds at any
-- version and status of the row: the row waits with the commands and the next version, and each
-- timer command has a timer task.
pub update_wait_until_execution-timers :
    (r : ProcessWaitUntilExecutionRequest) (e : Env) (db : Db) (row : AsyncStateExecutionRow)
    → r.command_request.local_queue_commands ≡ []
    → get db.states r.key ≡ some row
    → (resp : ProcessWaitUntilExecutionResponse) × (db' : Db) × (update_wait_until_execution r e db
        ≡ ok (resp, db'))
      × (get db'.states r.key
          ≡ some (record row {
            version = row.version + 1;
            status = wait_until_waiting;
            wait_until_commands = r.command_request;
            last_failure = none;
          }))
      × (db'.timer_tasks
          ≡ db.timer_tasks ++ timers_from r e.now db.next_timer 0 r.command_request.timer_commands)
      × (resp.fire_timestamps ≡ fires_of e.now r.command_request.timer_commands)
unfolding update_wait_until_execution update_async_state_execution read_queues complete_if
    write_queues get_dedup_id_to_local_queue_message_map
    update_command_results_with_newly_consumed_local_queue_messages
update_wait_until_execution-timers r e db row none_ found =
    let no_commands : not (is_empty r.command_request.local_queue_commands) ≡ false =
      rw none_ refl in
    let db1 : Db = record db {
      states =
          set db.states r.key
            (updated_state (waiting_row r.command_request (found_state r.key row)) row);
    } in
    let (db', ran, states, timers) = insert_timers_lem r e r.command_request.timer_commands 0 db1 in
    (
      record {
        has_new_immediate_task = false;
        fire_timestamps = fires_of e.now r.command_request.timer_commands;
      },
      db',
      rw
          (
            no_commands,
            ◌>>=◌,
            select_async_state_execution_for_update-found e db r.key row found,
            ◌>>=◌,
            get_dedup_id_to_local_queue_message_map,
            lift,
            update_command_results_with_newly_consumed_local_queue_messages,
            no_commands,
            complete_if,
            ◌>>◌,
            update_async_state_execution,
            found,
            eq_self row.version,
            ran,
            no_commands,
          )
          refl,
      ap (λ m. get m r.key) states ∙ get-set_self db.states r.key _,
      timers,
      refl,
    )
