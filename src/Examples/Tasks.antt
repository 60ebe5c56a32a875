-- ===== src/Examples/Tasks.antt =====
-- A WaitUntil task whose worker answers with status 500, and then what becomes of the process.
use xdb.Prelude.{
  ℕ, arith, ◌+◌, ◌*◌, true, false, [], ◌∷◌, Option, none, some, ok, err, commit_failure, dup_entry,
  ◌⊎◌, ap, ◌≡◌, refl, codes, nat_key, string_key, pair_key, string_discrete, pair_discrete,
  ℕ_discrete,
}
use xdb.Prelude.Maps.{get, set}
use xdb.DataModels.Enums.{ProcessExecutionStatus, ImmediateTaskType, wait_until_running, wait_until}
use xdb.DataModels.Infos.{
  AsyncStateExecutionInfo, AsyncStateConfig, state_config, StateApis, no_options, no_task_info,
  CommandRequest, new_command_results,
}
use xdb.DataModels.LocalQueues.{any_of_completion}
use xdb.DataModels.LocalQueues.{new_state_execution_local_queues}
use xdb.Database.Rows.{
  Db, ExecutionVisibilityRow, empty_db, AsyncStateExecutionRow, ImmediateTaskRow,
  ProcessExecutionRow,
}
use xdb.Engine.Backoff.{get_next_backoff, no_policy}
use xdb.Engine.WorkerCalls.{ProcessorEnv, check_retry, create_context_with_timeout}
use xdb.Engine.TaskLoop.{process_immediate_task, take_task, crashed}
use xdb.Engine.TaskLoop.Atomic.{process_immediate_task-err}
use xdb.Engine.TaskLoop.Deferring.{IsDeferred}
use xdb.Engine.TaskLoop.Retrying.{process_immediate_task-IsDeferred}
use xdb.Engine.TaskLoop.Failing.{StopsLatest, process_immediate_task-StopsLatest}
use xdb.Engine.TaskLoop.Crashing.{take_task-crashes}

abbrev no_commands : CommandRequest
no_commands = record {
  waiting_type = any_of_completion;
  timer_commands = [];
  local_queue_commands = [];
}

-- The worker answers with status 500.
abbrev env : ProcessorEnv
env = record {
  connection = record { begins = true; commits = true };
  app_answer = λ writes write. none;
  table_reads = λ name pk columns. ok [];
  drawn = λ i. 100 + i;
  clock = λ i. 200 + i;
  default_coefficient = 2;
  scaled = λ interval coefficient attempts. interval * coefficient;
  default_async_state_api_timeout = 10;
  max_async_state_api_timeout = 60;
  max_state_api_failure_detail_size = 1000;
  error_text = λ e. codes "error";
  fix_worker_url = λ url. url;
  call_wait_until = λ call. record {
    answer = record { command_request = no_commands; publish = [] };
    error = none;
    response = some (record { status_code = 500; body = some (codes "busy") });
  };
  call_execute = λ call. record {
    answer = record {
      state_decision = record { next_states = []; thread_close_decision = none };
      publish = [];
      write_to_app_database = [];
      write_to_local_attributes = [];
    };
    error = none;
    response = some (record { status_code = 500; body = none });
  };
  records_status = ok tt;
  deletes_tasks = ok tt;
  has_completion_channels = λ shard. false;
}

-- The state is tried once more after its first attempt.
abbrev apis : StateApis
apis = record {
  skip_wait_until = false;
  wait_until_api_timeout_seconds = 0;
  execute_api_timeout_seconds = 0;
  wait_until_api_retry_policy = some (record (no_policy {F = ℕ}) { maximum_attempts = some 2 });
  execute_api_retry_policy = none;
  app_database_read_request = none;
  load_local_attributes_request = none;
}

abbrev info : Option AsyncStateConfig → AsyncStateExecutionInfo
info config = record {
  namespace = codes "n";
  process_id = codes "p";
  process_type = codes "t";
  worker_url = codes "u";
  state_config = config;
  recover_from_state_execution_id = none;
  recover_from_api = none;
  app_database_config = none;
}

abbrev state : Option AsyncStateConfig → AsyncStateExecutionRow
state config = record {
  version = 2;
  status = wait_until_running;
  wait_until_commands = no_commands;
  wait_until_command_results = new_command_results;
  last_failure = none;
  input = record { encoding = []; contents = [] };
  info = info config;
}

abbrev configured : AsyncStateExecutionRow
configured = state (some (state_config apis no_options))

abbrev task_of : ℕ → ImmediateTaskRow
task_of attempts = record {
  task_sequence = 3;
  row = record {
    shard_id = 0;
    task_type = wait_until;
    process_execution_id = 5;
    state_id = codes "a";
    state_id_sequence = 1;
    info = record no_task_info {
      worker_task_backoff_info =
          some (record { completed_attempts = attempts; first_attempt_timestamp_seconds = 190 });
    };
  };
}

abbrev process : ProcessExecutionRow
process = record {
  shard_id = 0;
  status = ProcessExecutionStatus.running;
  history_event_id_sequence = 0;
  state_execution_sequence_maps = record {
    sequence_map = (codes "a", 1) ∷ [];
    pending_execution_map = (codes "a", (1, true) ∷ []) ∷ [];
  };
  state_execution_local_queues = new_state_execution_local_queues;
  namespace = codes "n";
  process_id = codes "p";
  start_time = 100;
  timeout_seconds = 0;
  info = record { process_type = codes "t"; worker_url = codes "u"; app_database_config = none };
  graceful_complete_requested = false;
}

abbrev db_of : AsyncStateExecutionRow → ImmediateTaskRow → Db
db_of row task = record empty_db {
  latest = ((codes "n", codes "p"), 5) ∷ [];
  processes = (5, process) ∷ [];
  states = ((5, (codes "a", 1)), row) ∷ [];
  immediate_tasks = task ∷ [];
  next_immediate = 4;
}

put_off_example :
    IsDeferred env
      (task_of 0)
      wait_until
      (codes "n", codes "p")
      (record { completed_attempts = 1; first_attempt_timestamp_seconds = 190 })
      204
      (db_of configured (task_of 0))
      (process_immediate_task env (task_of 0) (db_of configured (task_of 0)))
unfolding get string_discrete pair_discrete ℕ_discrete create_context_with_timeout check_retry
    get_next_backoff
put_off_example =
    process_immediate_task-IsDeferred env (task_of 0) configured 10 2 (db_of configured (task_of 0))
      (refl, refl) refl refl refl refl refl refl (omega arith) (omega arith) tt

given_up_example :
    StopsLatest configured 5 process 203
      (db_of configured (task_of 1))
      (process_immediate_task env (task_of 1) (db_of configured (task_of 1)))
unfolding get string_discrete pair_discrete ℕ_discrete create_context_with_timeout check_retry
    get_next_backoff
given_up_example =
    process_immediate_task-StopsLatest env (task_of 1) configured 10 0
      (db_of configured (task_of 1)) 5 process (refl, refl) refl refl refl refl refl refl refl
      (record { latest = refl; row = refl; process_id = refl }) refl

crash_example :
    take_task env true true (task_of 0) (db_of (state none) (task_of 0))
    ≡ (crashed, db_of (state none) (task_of 0), [])
unfolding get string_discrete pair_discrete ℕ_discrete
crash_example =
    take_task-crashes env (task_of 0) (state none) true (db_of (state none) (task_of 0)) refl refl
      refl refl refl

-- The task that records that the process runs
abbrev visible_task : ImmediateTaskRow
visible_task = record {
  task_sequence = 3;
  row = record {
    shard_id = 0;
    task_type = ImmediateTaskType.visibility;
    process_execution_id = 5;
    state_id = [];
    state_id_sequence = 0;
    info = record no_task_info {
      visibility_info = some (record {
        namespace = codes "n";
        process_id = codes "p";
        process_type = codes "t";
        process_execution_id = 5;
        status = ProcessExecutionStatus.running;
        start_time = some 100;
        close_time = none;
      });
    };
  };
}

abbrev visible_row : ExecutionVisibilityRow
visible_row = record {
  namespace = codes "n";
  process_id = codes "p";
  process_execution_id = 5;
  process_type_name = codes "t";
  status = ProcessExecutionStatus.running;
  start_time = 100;
  close_time = none;
}

abbrev visible_db : Db
visible_db = record empty_db { immediate_tasks = visible_task ∷ []; next_immediate = 4 }

abbrev recorded_db : Db
recorded_db = record visible_db { visibility = ((codes "n", 5), visible_row) ∷ [] }

-- The database records the status and does not delete the task.
abbrev unlucky : ProcessorEnv
unlucky = record env { deletes_tasks = err commit_failure }

recorded :
    process_immediate_task unlucky visible_task visible_db
    ≡ record { result = err commit_failure; tables = recorded_db; sent = [] }
unfolding process_immediate_task get set string_discrete pair_discrete ℕ_discrete
recorded = refl

-- From then on the task fails at its first statement, though the database deletes again.
stays_put_back :
    process_immediate_task env visible_task recorded_db
    ≡ record { result = err dup_entry; tables = recorded_db; sent = [] }
unfolding process_immediate_task get set string_discrete pair_discrete ℕ_discrete
stays_put_back = refl

atomic_example :
    let o = process_immediate_task unlucky visible_task visible_db in
    ((o.tables ≡ visible_db)
      ⊎ ((visible_task.task_type ≡ ImmediateTaskType.visibility)
          × (unlucky.deletes_tasks ≡ err commit_failure)
          × (record o.tables { visibility = visible_db.visibility } ≡ visible_db)))
    × (o.sent ≡ [])
atomic_example =
    process_immediate_task-err unlucky visible_task visible_db commit_failure
      (ap (λ o. o.result) recorded)
