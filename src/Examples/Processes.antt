-- ===== src/Examples/Processes.antt =====
-- The theorems on the process store, on a database with one process execution that waits for a
-- timer in its one state.
use xdb.Prelude.{
  ℕ, ◌+◌, arith, Bool, true, false, List, [], ◌∷◌, none, some, ok, ◌≡◌, refl, codes, nat_key,
  string_key, pair_key, string_discrete, pair_discrete, ℕ_discrete, All, Any, inl, inr,
}
use xdb.Prelude.Maps.{get, set}
use xdb.DataModels.Enums.{ProcessExecutionStatus, StateExecutionStatus, wait_until, timer_command}
use xdb.DataModels.Sequences.{StateExecutionSequenceMaps, new_state_execution_sequence_maps}
use xdb.DataModels.Sequences.Invariant.{IsValid}
use xdb.DataModels.LocalQueues.{new_state_execution_local_queues, any_of_completion}
use xdb.DataModels.Infos.{
  Uuid, after, new_command_results, AsyncStateExecutionInfo, no_timer_info, StateDecision,
  StateMovement, graceful_complete_process,
}
use xdb.Database.Rows.{Db, empty_db, ProcessExecutionRow, AsyncStateExecutionRow, TimerTaskRow}
use xdb.Database.Tx.{Env, AppAnswer, Connection}
use xdb.Process.Start.{
  StartProcessRequest, terminate_if_running, allow_if_no_running, started, already,
}
use xdb.Process.Start.Inserted.{IsFresh}
use xdb.Process.Policies.{apply_policy}
use xdb.Process.Policies.Started.{HasStarted}
use xdb.Process.Policies.Table.{apply_policy-starts, apply_policy-refuses}
use xdb.Process.Stop.{StopProcessRequest, terminate, fail_type, stop_process, exists_answer}
use xdb.Process.Stop.Fencing.{complete_execute_execution-stale}
use xdb.Process.Stop.Stopped.{IsLatest, HasStopped}
use xdb.Process.Stop.Stopping.{stop_process-running, stop_process-again, stop_process-fences}
use xdb.Process.Execute.{CompleteExecuteExecutionRequest, complete_execute_execution}
use xdb.Process.Decision.{
  HandleStateDecisionRequest, HandleStateDecisionResponse, next_state_info, handle_state_decision,
}
use xdb.Process.Decision.Closing.{
  is_stuck, handle_state_decision_not_stuck, handle_state_decision-IsValid,
}
use xdb.Process.Timers.{do_process_timer_task_for_timer_command_tx}
use xdb.Process.Timers.Firing.{HasFired, do_process_timer_task_for_timer_command_tx-waiting}
use xdb.Process.Timers.Remaining.{do_process_timer_task_for_timer_command_tx-remains}
use xdb.Process.Common.{new_state_row, state_task, has_completed_wait_until_waiting}
use xdb.Process.Publish.{LocalQueueMessage, parsed, publish_to_local_queue}
use xdb.Process.Publish.Once.{publish_to_local_queue-once}
use xdb.Process.Pages.{get_timer_tasks_up_to_timestamp}
use xdb.Process.Pages.Ranges.{IsWithin, get_timer_tasks_up_to_timestamp-IsWithin}

abbrev maps : StateExecutionSequenceMaps
maps = record {
  sequence_map = (codes "a", 1) ∷ [];
  pending_execution_map = (codes "a", (1, true) ∷ []) ∷ [];
}

abbrev process : ProcessExecutionRow
process = record {
  shard_id = 0;
  status = ProcessExecutionStatus.running;
  history_event_id_sequence = 0;
  state_execution_sequence_maps = maps;
  state_execution_local_queues = new_state_execution_local_queues;
  namespace = codes "n";
  process_id = codes "p";
  start_time = 100;
  timeout_seconds = 0;
  info = record { process_type = codes "t"; worker_url = codes "u"; app_database_config = none };
  graceful_complete_requested = false;
}

abbrev info : AsyncStateExecutionInfo
info = record {
  namespace = codes "n";
  process_id = codes "p";
  process_type = codes "t";
  worker_url = codes "u";
  state_config = none;
  recover_from_state_execution_id = none;
  recover_from_api = none;
  app_database_config = none;
}

-- The state waits for a timer.
abbrev state : AsyncStateExecutionRow
state = record {
  version = 2;
  status = StateExecutionStatus.wait_until_waiting;
  wait_until_commands = record {
    waiting_type = any_of_completion;
    timer_commands = after 10 ∷ [];
    local_queue_commands = [];
  };
  wait_until_command_results = new_command_results;
  last_failure = none;
  input = record { encoding = []; contents = [] };
  info = info;
}

abbrev timer : TimerTaskRow
timer = record {
  task_sequence = 1;
  row = record {
    shard_id = 0;
    fire_time_unix_seconds = 110;
    task_type = timer_command;
    process_execution_id = 5;
    state_id = codes "a";
    state_id_sequence = 1;
    info = no_timer_info;
  };
}

abbrev db : Db
db = record empty_db {
  latest = ((codes "n", codes "p"), 5) ∷ [];
  processes = (5, process) ∷ [];
  states = ((5, (codes "a", 1)), state) ∷ [];
  timer_tasks = timer ∷ [];
  next_timer = 2;
}

abbrev app : AppAnswer
app _ _ = none

abbrev env : Env
env = record { committed = db; now = 200; app_answer = app }

abbrev online : Connection
online = record { begins = true; commits = true }

abbrev start_request : StartProcessRequest
start_request = record {
  request = record {
    namespace = codes "n";
    process_id = codes "p";
    process_type = codes "t";
    worker_url = codes "u";
    start_state_id = some (codes "a");
    start_state_input = none;
    start_state_config = none;
    process_start_config = none;
  };
  new_task_shard_id = 0;
  timeout_time_unix_seconds = 300;
}

db-IsFresh : IsFresh db 6
unfolding get string_discrete pair_discrete ℕ_discrete
db-IsFresh = record { process = refl; states = λ k. refl }

starts_example :
    (db' : Db) × (apply_policy terminate_if_running start_request 6 env db
      ≡ ok (started 6 true, db'))
    × HasStarted start_request 6 200 (some (5, process)) db'
unfolding get string_discrete pair_discrete ℕ_discrete
starts_example =
    apply_policy-starts env db start_request 6 db-IsFresh terminate_if_running (some (5, process))
      (refl, refl) refl

refuses_example : apply_policy allow_if_no_running start_request 6 env db ≡ ok (already, db)
unfolding get string_discrete pair_discrete ℕ_discrete
refuses_example =
    apply_policy-refuses env db start_request 6 allow_if_no_running (some (5, process)) (λ e. cc e)
      (refl, refl) refl

abbrev stop_request : StopProcessRequest
stop_request = record {
  namespace = codes "n";
  process_id = codes "p";
  process_stop_type = terminate;
  new_task_shard_id = 0;
}

db-IsLatest : IsLatest db (codes "n", codes "p") 5 process
unfolding get string_discrete pair_discrete ℕ_discrete
db-IsLatest = record { latest = refl; row = refl; process_id = refl }

stop_running_example :
    ((stop_process online stop_request 200 app db).0 ≡ ok exists_answer)
    × HasStopped ProcessExecutionStatus.terminated 0
        (codes "n", codes "p")
        5
        process
        200
        db
        (stop_process online stop_request 200 app db).1
stop_running_example =
    stop_process-running online stop_request 200 app db 5 process refl refl db-IsLatest refl

abbrev fail_request : StopProcessRequest
fail_request = record stop_request { process_stop_type = fail_type }

stop_again_example :
    let stopped = (stop_process online stop_request 200 app db).1 in
    stop_process online fail_request 300 app stopped ≡ (ok exists_answer, stopped)
stop_again_example =
    stop_process-again online online stop_request fail_request 200 300 app app db 5 process refl
      refl refl refl db-IsLatest refl refl refl

abbrev drawn : ℕ → Uuid
drawn i = 50 + i

abbrev no_decision : StateDecision
no_decision = record { next_states = []; thread_close_decision = none }

abbrev execute_request : CompleteExecuteExecutionRequest
execute_request = record {
  key = (5, (codes "a", 1));
  previous_version = 2;
  info = info;
  state_decision = no_decision;
  publish = [];
  app_database_config = none;
  write_app_database = [];
  update_local_attributes = [];
  task_shard_id = 0;
  task_sequence = 1;
}

fences_example :
    let stopped = (stop_process online stop_request 200 app db).1 in
    (complete_execute_execution online drawn execute_request 201 app stopped).1 ≡ stopped
unfolding get string_discrete pair_discrete ℕ_discrete
fences_example =
    stop_process-fences online stop_request 200 app db process drawn execute_request state online
      201 app refl refl db-IsLatest refl refl refl (omega arith) refl

abbrev stale_request : CompleteExecuteExecutionRequest
stale_request = record execute_request { previous_version = 1 }

stale_example : (complete_execute_execution online drawn stale_request 201 app db).1 ≡ db
unfolding get string_discrete pair_discrete ℕ_discrete
stale_example =
    complete_execute_execution-stale online drawn stale_request 201 app db state refl (omega arith)

abbrev next : StateMovement
next = record { state_id = codes "b"; state_input = none; state_config = none }

abbrev decision_request : HandleStateDecisionRequest
decision_request = record {
  namespace = codes "n";
  process_id = codes "p";
  process_type = codes "t";
  process_execution_id = 5;
  state_decision = record {
    next_states = next ∷ [];
    thread_close_decision = some graceful_complete_process;
  };
  app_database_config = none;
  worker_url = codes "u";
  sequence_maps = new_state_execution_sequence_maps;
  graceful_complete_requested = false;
  status = ProcessExecutionStatus.running;
  task_shard_id = 0;
}

abbrev decided : StateExecutionSequenceMaps
decided = record {
  sequence_map = (codes "b", 1) ∷ [];
  pending_execution_map = (codes "b", (1, true) ∷ []) ∷ [];
}

abbrev decision_response : HandleStateDecisionResponse
decision_response = record {
  has_new_immediate_task = true;
  new_sequence_maps = decided;
  new_graceful_complete_requested = true;
  new_status = ProcessExecutionStatus.running;
}

-- The tables after the decision.
abbrev decided_db : Db
decided_db = record db {
  states =
      ((5, (codes "a", 1)), state)
      ∷ (
        (5, (codes "b", 1)),
        new_state_row none (record { encoding = []; contents = [] })
            (next_state_info decision_request next),
      )
      ∷ [];
  immediate_tasks =
      record { task_sequence = 1; row = state_task 0 wait_until (5, (codes "b", 1)) } ∷ [];
  next_immediate = 2;
}

decided_db_lem : handle_state_decision decision_request env db ≡ ok (decision_response, decided_db)
unfolding handle_state_decision get set string_discrete pair_discrete ℕ_discrete
decided_db_lem = refl

not_stuck_example : is_stuck ProcessExecutionStatus.running true decided ≡ false
not_stuck_example =
    handle_state_decision_not_stuck decision_request env db decision_response decided_db
      decided_db_lem

decision-IsValid_example : IsValid decided
unfolding get
decision-IsValid_example =
    handle_state_decision-IsValid decision_request env db decision_response decided_db tt
      (λ a. omega arith) decided_db_lem

fires_example :
    (db' : Db) × (do_process_timer_task_for_timer_command_tx timer env db
      ≡ ok (record { has_new_immediate_task = true }, db'))
    × HasFired timer state true db db'
unfolding get set string_discrete pair_discrete ℕ_discrete has_completed_wait_until_waiting
fires_example =
    do_process_timer_task_for_timer_command_tx-waiting timer env db process state refl refl refl

-- Another timer of the state, whose command comes second
abbrev second_timer : TimerTaskRow
second_timer = record {
  task_sequence = 2;
  row = record timer.row {
    fire_time_unix_seconds = 120;
    info = record no_timer_info { timer_command_index = 1 };
  };
}

abbrev two_timers : Db
two_timers = record db { timer_tasks = timer ∷ second_timer ∷ []; next_timer = 3 }

remains_example :
    (db' : Db) × (do_process_timer_task_for_timer_command_tx timer env two_timers
      ≡ ok (record { has_new_immediate_task = true }, db'))
    × (do_process_timer_task_for_timer_command_tx second_timer env db'
        ≡ ok (record { has_new_immediate_task = false }, db'))
    × Any (λ x. x ≡ second_timer) db'.timer_tasks
unfolding get set string_discrete pair_discrete ℕ_discrete
remains_example =
    do_process_timer_task_for_timer_command_tx-remains timer second_timer env env two_timers process
      state refl refl refl refl refl (omega arith) (inr (inl refl))

abbrev messages : List LocalQueueMessage
messages =
    record { queue_name = codes "q"; dedup_id = parsed 9; payload = none }
    ∷ record { queue_name = codes "q"; dedup_id = parsed 9; payload = none }
    ∷ []

once_example :
    (b : Bool) × (db' : Db) × (publish_to_local_queue drawn 5 0 messages env db ≡ ok (b, db'))
    × (publish_to_local_queue drawn 5 1 messages env db' ≡ ok (false, db'))
once_example =
    publish_to_local_queue-once drawn drawn 5 0 1 messages (9 ∷ 9 ∷ []) env env db
      (refl, (refl, tt))

page_example :
    let resp = get_timer_tasks_up_to_timestamp db 0 120 10 in All (IsWithin resp) resp.tasks
page_example = get_timer_tasks_up_to_timestamp-IsWithin db 0 120 10
