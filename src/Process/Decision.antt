-- ===== src/Process/Decision.antt =====
-- handleStateDecision of persistence/process/common.go.
pub mod Closing
use xdb.Prelude.{
  ℕ, Bool, true, false, not, ◌&&◌, ◌||◌, List, [], ◌∷◌, Option, none, some, Error, Result, ok, err,
  if◌then◌else◌, GoString, nat_key, string_key, pair_key,
}
use xdb.Prelude.Maps.{is_empty}
use xdb.DataModels.Enums.{ProcessExecutionStatus}
use xdb.DataModels.Sequences.{StateExecutionSequenceMaps, start_new_state_execution}
use xdb.DataModels.Infos.{
  Uuid, from_encoded_object, StateMovement, StateDecision, ThreadCloseType,
  graceful_complete_process, force_complete_process, force_fail_process, dead_end,
  AppDatabaseConfig, AsyncStateExecutionInfo,
}
use xdb.Database.Rows.{ProcessExecutionRowForUpdate}
use xdb.Database.Tx.{Tx, Done, ◌>>=◌, ◌>>◌, pure, fail, lift}
use xdb.Database.Statements.{batch_update_async_state_executions_to_abort_running}
use xdb.Process.Common.{insert_async_state_execution, insert_immediate_task}

-- HandleStateDecisionRequest and HandleStateDecisionResponse
pub record HandleStateDecisionRequest : Type 0 where
  pub namespace : GoString
  pub process_id : GoString
  pub process_type : GoString
  pub process_execution_id : Uuid
  pub state_decision : StateDecision
  pub app_database_config : Option AppDatabaseConfig
  pub worker_url : GoString
  pub sequence_maps : StateExecutionSequenceMaps
  pub graceful_complete_requested : Bool
  pub status : ProcessExecutionStatus
  pub task_shard_id : ℕ

pub record HandleStateDecisionResponse : Type 0 where
  pub has_new_immediate_task : Bool
  pub new_sequence_maps : StateExecutionSequenceMaps
  pub new_graceful_complete_requested : Bool
  pub new_status : ProcessExecutionStatus

abbrev pub next_state_info : HandleStateDecisionRequest → StateMovement → AsyncStateExecutionInfo
next_state_info r next = record {
  namespace = r.namespace;
  process_id = r.process_id;
  process_type = r.process_type;
  worker_url = r.worker_url;
  state_config = next.state_config;
  recover_from_state_execution_id = none;
  recover_from_api = none;
  app_database_config = r.app_database_config;
}

-- The loop over the next states; it changes the sequence maps.
unfoldable pub start_next_states :
    HandleStateDecisionRequest
    → List StateMovement
    → StateExecutionSequenceMaps
    → Tx StateExecutionSequenceMaps
unfolding start_new_state_execution insert_async_state_execution insert_immediate_task
start_next_states r [] maps = pure maps
start_next_states r (next ∷ rest) maps = do
  let started = start_new_state_execution maps next.state_id
  insert_async_state_execution r.process_execution_id next.state_id started.1 next.state_config
      (from_encoded_object next.state_input) (next_state_info r next)
  insert_immediate_task r.process_execution_id next.state_id started.1 next.state_config
      r.task_shard_id
  start_next_states r rest started.0

-- The variables that the second half of the function changes.
pub record Closed : Type 0 where
  pub maps : StateExecutionSequenceMaps
  pub graceful : Bool
  pub status : ProcessExecutionStatus
  pub should_complete : Bool
  pub to_abort : Bool

abbrev pub nothing_pending : StateExecutionSequenceMaps → Bool
nothing_pending maps = is_empty maps.pending_execution_map

abbrev pub forced : ProcessExecutionStatus → Closed → Closed
forced status c = record c {
  maps = record c.maps { pending_execution_map = [] };
  status = status;
  to_abort = not (nothing_pending c.maps);
}

-- The switch on the thread close type.
abbrev pub close_thread : Option ThreadCloseType → Closed → Closed
close_thread none c = c
close_thread (some graceful_complete_process) c = record c {
  graceful = true;
  should_complete = nothing_pending c.maps;
}
close_thread (some force_complete_process) c = forced ProcessExecutionStatus.completed c
close_thread (some force_fail_process) c = forced ProcessExecutionStatus.failed c
close_thread (some dead_end) c = c

abbrev pub complete_if_asked : Closed → Closed
complete_if_asked c =
    if c.should_complete then record c { status = ProcessExecutionStatus.completed } else c

abbrev pub before_closing : Bool → ProcessExecutionStatus → StateExecutionSequenceMaps → Closed
before_closing graceful status maps = record {
  maps = maps;
  graceful = graceful;
  status = status;
  should_complete = graceful && nothing_pending maps;
  to_abort = false;
}

unfoldable pub decide_closing :
    Option ThreadCloseType → Bool → ProcessExecutionStatus → StateExecutionSequenceMaps → Closed
decide_closing close graceful status maps =
    let c = before_closing graceful status maps in
    complete_if_asked (if c.should_complete then c else close_thread close c)

unfoldable pub abort_if : Bool → Uuid → Tx Done
unfolding batch_update_async_state_executions_to_abort_running
abort_if b id = if b then batch_update_async_state_executions_to_abort_running id else pure tt

abbrev pub response_of : HandleStateDecisionRequest → Closed → HandleStateDecisionResponse
response_of r c = record {
  has_new_immediate_task = not (is_empty r.state_decision.next_states);
  new_sequence_maps = c.maps;
  new_graceful_complete_requested = c.graceful;
  new_status = c.status;
}

-- handleStateDecision
unfoldable pub handle_state_decision : HandleStateDecisionRequest → Tx HandleStateDecisionResponse
unfolding start_next_states decide_closing abort_if
handle_state_decision r = do
  maps ← start_next_states r r.state_decision.next_states r.sequence_maps
  let c =
      decide_closing r.state_decision.thread_close_decision r.graceful_complete_requested r.status
        maps
  abort_if c.to_abort r.process_execution_id
  pure (response_of r c)
