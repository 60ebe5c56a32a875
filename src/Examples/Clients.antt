-- ===== src/Examples/Clients.antt =====
-- A client starts a process, and starts it again.
use xdb.Prelude.{
  ◌+◌, true, false, [], ◌∷◌, none, some, ok, ◌≡◌, refl, codes, nat_key, string_key, pair_key,
  string_discrete, pair_discrete, ℕ_discrete,
}
use xdb.Prelude.Maps.{get}
use xdb.Database.Rows.{Db, empty_db, ProcessExecutionRow}
use xdb.Process.AppDatabase.{get_internal_app_database_config}
use xdb.Process.Start.{ProcessExecutionStartRequest, disallow_reuse}
use xdb.Process.Start.Begun.{running_row}
use xdb.DataModels.Enums.{ProcessExecutionStatus}
use xdb.Service.Api.{ApiEnv, answer, error_with_status, store_request, api_start_process, panics}
use xdb.Service.Api.Rpc.{RpcRequest, api_rpc}
use xdb.Service.Api.Starting.{api_start_process-conflict}

-- Workers do not answer.
abbrev env : ApiEnv
env = record {
  connection = record { begins = true; commits = true };
  app_answer = λ writes write. none;
  table_reads = λ name pk columns. ok [];
  drawn = λ i. 100 + i;
  shard = 3;
  now = 200;
  default_rpc_api_timeout = 10;
  max_rpc_api_timeout = 60;
  fix_worker_url = λ url. url;
  call_rpc = λ call. record {
    answer = record {
      output = none;
      state_decision = record { next_states = []; thread_close_decision = none };
      publish = [];
      write_to_app_database = [];
    };
    error = some (codes "connection refused");
    response = none;
  };
}

abbrev request : ProcessExecutionStartRequest
request = record {
  namespace = codes "n";
  process_id = codes "p";
  process_type = codes "t";
  worker_url = codes "u";
  start_state_id = some (codes "a");
  start_state_input = none;
  start_state_config = none;
  process_start_config = some (record {
    timeout_seconds = 60;
    id_reuse_policy = some disallow_reuse;
    app_database_config = none;
    initial_attributes = [];
  });
}

abbrev started_row : ProcessExecutionRow
started_row = record {
  shard_id = 3;
  status = ProcessExecutionStatus.running;
  history_event_id_sequence = 0;
  state_execution_sequence_maps = record {
    sequence_map = (codes "a", 1) ∷ [];
    pending_execution_map = (codes "a", (1, true) ∷ []) ∷ [];
  };
  state_execution_local_queues = record { commands = []; unconsumed = [] };
  namespace = codes "n";
  process_id = codes "p";
  start_time = 200;
  timeout_seconds = 60;
  info = record {
    process_type = codes "t";
    worker_url = codes "u";
    app_database_config = get_internal_app_database_config none;
  };
  graceful_complete_requested = false;
}

abbrev process : ProcessExecutionRow
process = running_row (store_request env request) 150

abbrev running_db : Db
running_db = record empty_db {
  latest = ((codes "n", codes "p"), 5) ∷ [];
  processes = (5, process) ∷ [];
}

conflict_example :
    api_start_process env request running_db ≡ (error_with_status 409, running_db, [])
unfolding get string_discrete pair_discrete ℕ_discrete
conflict_example =
    api_start_process-conflict env request running_db (some (5, process)) refl (refl, refl)
      (λ e. cc e) (refl, refl) refl

abbrev rpc : RpcRequest
rpc = record {
  namespace = codes "n";
  process_id = codes "p";
  rpc_name = codes "r";
  input = none;
  timeout_seconds = 0;
  app_database_read_request = [];
}

-- A worker that cannot be reached is a nil response.
unreachable : api_rpc env rpc running_db ≡ (panics, running_db, [])
unfolding api_rpc get string_discrete pair_discrete ℕ_discrete get_internal_app_database_config
unreachable = refl
