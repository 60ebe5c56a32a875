-- ===== src/Process/Start/Begun.antt =====
-- persistence/process/start_process.go: the rows of a process execution that has begun, written out.
use xdb.Prelude.{
  ℕ, true, false, List, [], ◌∷◌, Option, none, some, if◌then◌else◌, ◌≡◌, GoMap, GoString, nat_key,
  string_key, pair_key, Any,
}
use xdb.DataModels.Enums.{
  ProcessExecutionStatus, StateExecutionStatus, ImmediateTaskType, process_timeout,
}
use xdb.Prelude.Maps.{get}
use xdb.DataModels.Sequences.{StateExecutionSequenceMaps}
use xdb.DataModels.Infos.{
  Uuid, get_skip_wait_until, empty_command_request, from_encoded_object, no_task_info,
  no_timer_info,
}
use xdb.Process.AppDatabase.{get_internal_app_database_config}
use xdb.Database.Rows.{
  ProcessExecutionRow, StateKey, AsyncStateExecutionRow, ImmediateTaskRow,
  ImmediateTaskRowForInsert, TimerTaskRowForInsert,
}
use xdb.Process.Start.{StartProcessRequest, timeout_of, app_config}

-- The sequence maps of a process that begins with this state, or with none
abbrev pub first_maps : Option GoString → StateExecutionSequenceMaps
first_maps none = record { sequence_map = []; pending_execution_map = [] }
first_maps (some state_id) = record {
  sequence_map = (state_id, 1) ∷ [];
  pending_execution_map = (state_id, (1, true) ∷ []) ∷ [];
}

-- The row of a new process execution: it runs, from now on.
abbrev pub running_row : StartProcessRequest → ℕ → ProcessExecutionRow
running_row r now = record {
  shard_id = r.new_task_shard_id;
  status = ProcessExecutionStatus.running;
  history_event_id_sequence = 0;
  state_execution_sequence_maps = first_maps r.start_state_id;
  state_execution_local_queues = record { commands = []; unconsumed = [] };
  namespace = r.namespace;
  process_id = r.process_id;
  start_time = now;
  timeout_seconds = timeout_of r.process_start_config;
  info = record {
    process_type = r.process_type;
    worker_url = r.worker_url;
    app_database_config = get_internal_app_database_config (app_config r.process_start_config);
  };
  graceful_complete_requested = false;
}

-- The row of the start state: version 1, and it runs WaitUntil, or Execute if the state skips that.
abbrev pub first_state : StartProcessRequest → AsyncStateExecutionRow
first_state r = record {
  version = 1;
  status =
      if get_skip_wait_until r.start_state_config
      then StateExecutionStatus.execute_running
      else StateExecutionStatus.wait_until_running;
  wait_until_commands = empty_command_request;
  wait_until_command_results = record { timer_results = []; local_queue_results = [] };
  last_failure = none;
  input = from_encoded_object r.start_state_input;
  info = record {
    namespace = r.namespace;
    process_id = r.process_id;
    process_type = r.process_type;
    worker_url = r.worker_url;
    state_config = r.start_state_config;
    recover_from_state_execution_id = none;
    recover_from_api = none;
    app_database_config = get_internal_app_database_config (app_config r.process_start_config);
  };
}

-- The task of the start state
abbrev pub first_state_task : StartProcessRequest → Uuid → GoString → ImmediateTaskRowForInsert
first_state_task r id state_id = record {
  shard_id = r.new_task_shard_id;
  task_type =
      if get_skip_wait_until r.start_state_config
      then ImmediateTaskType.execute
      else ImmediateTaskType.wait_until;
  process_execution_id = id;
  state_id = state_id;
  state_id_sequence = 1;
  info = no_task_info;
}

-- The task that records the process execution as running
abbrev pub running_task : StartProcessRequest → Uuid → ℕ → ImmediateTaskRowForInsert
running_task r id now = record {
  shard_id = r.new_task_shard_id;
  task_type = ImmediateTaskType.visibility;
  process_execution_id = id;
  state_id = [];
  state_id_sequence = 0;
  info = record no_task_info {
    visibility_info = some (record {
      namespace = r.namespace;
      process_id = r.process_id;
      process_type = r.process_type;
      process_execution_id = id;
      status = ProcessExecutionStatus.running;
      start_time = some now;
      close_time = none;
    });
  };
}

-- The timer of the process timeout
abbrev pub timeout_timer : StartProcessRequest → Uuid → TimerTaskRowForInsert
timeout_timer r id = record {
  shard_id = r.new_task_shard_id;
  fire_time_unix_seconds = r.timeout_time_unix_seconds;
  task_type = process_timeout;
  process_execution_id = id;
  state_id = [];
  state_id_sequence = 0;
  info = no_timer_info;
}

-- The start state, if the request names one, has its row and its task.
abbrev pub StartsWith :
    StartProcessRequest
    → Uuid
    → GoMap StateKey AsyncStateExecutionRow
    → List ImmediateTaskRow
    → Option GoString
    → Type 0
StartsWith r id states tasks none = Unit
StartsWith r id states tasks (some state_id) =
    (get states (id, (state_id, 1)) ≡ some (first_state r))
    × Any (λ t. t.row ≡ first_state_task r id state_id) tasks
