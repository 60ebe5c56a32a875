-- ===== src/Engine/ExecuteTasks.antt =====
-- engine/immediate_task_concurrent_processor.go: processExecuteTask, with what is read for the worker.
use xdb.Prelude.{
  ℕ, Bool, true, false, not, ◌&&◌, List, [], Option, none, some, Result, ok, err, is_some,
  if◌then◌else◌, GoString, codes, missing_app_database_config, app_database_error,
}
use xdb.Prelude.Maps.{is_empty}
use xdb.DataModels.Enums.{ProcessExecutionStatus, undefined, running}
use xdb.DataModels.Infos.{
  Uuid, WorkerTaskBackoffInfo, AsyncStateConfig, state_config, execute_api, Columns,
  AppDatabaseConfig, TableReadRequest, LoadLocalAttributesRequest, StateDecision,
}
use xdb.Database.Rows.{Db, ImmediateTaskRow}
use xdb.Database.Tx.{Done}
use xdb.Process.AppDatabase.{KeyValue}
use xdb.Process.Execute.{
  CompleteExecuteExecutionRequest, CompleteExecuteExecutionResponse, complete_execute_execution,
}
use xdb.Process.Reads.{PrepareStateExecutionResponse, read_app_database, load_local_attributes}
use xdb.Engine.Actions.{Action, process_ended, ◌>>=◌, ◌>>◌, lift, raise, call}
use xdb.Engine.WorkerCalls.{
  ProcessorEnv, HttpAnswer, ExecuteAnswer, ExecuteCall, check_http_response_and_error,
  begin_attempt, create_context_with_timeout, create_api_context,
}
use xdb.Engine.ImmediateTasks.{
  notify_if, key_of_task, new_task_of, retry_or_recover, failed_attempt, with_backoff,
}

abbrev pub requests_of : Option AsyncStateConfig → Option (List TableReadRequest)
requests_of none = none
requests_of (some (state_config apis _)) = apis.app_database_read_request

-- readAppDatabaseIfNeeded
abbrev pub read_tables :
    ProcessorEnv
    → Option (List TableReadRequest)
    → Option AppDatabaseConfig
    → Result (List (GoString × List Columns))
read_tables env none config = ok []
read_tables env (some requests) none = err missing_app_database_config
read_tables env (some requests) (some config) = read_app_database env.table_reads config requests

unfoldable pub read_app_database_if_needed :
    ProcessorEnv → PrepareStateExecutionResponse → Result (List (GoString × List Columns))
unfolding read_app_database
read_app_database_if_needed env prep =
    read_tables env (requests_of prep.info.state_config) prep.info.app_database_config

abbrev pub load_requested : Uuid → Option LoadLocalAttributesRequest → Db → Result (List KeyValue)
load_requested id none db = ok []
load_requested id (some request) db = load_local_attributes id request db

-- loadLocalAttributesIfNeeded
abbrev pub load_local_attributes_if_needed :
    Uuid → Option AsyncStateConfig → Db → Result (List KeyValue)
load_local_attributes_if_needed id none db = ok []
load_local_attributes_if_needed id (some (state_config apis _)) db =
    load_requested id apis.load_local_attributes_request db

-- ValidateDecision of common/decision, as the text of its error
abbrev pub validate_decision : StateDecision → Option GoString
validate_decision d =
    if is_some d.thread_close_decision && not (is_empty d.next_states)
    then some (codes "cannot have both thread decision and next states")
    else none

abbrev pub error_or_invalid : Option GoString → StateDecision → Option GoString
error_or_invalid none d = validate_decision d
error_or_invalid (some text) d = some text

abbrev pub has_ended : ProcessExecutionStatus → Bool
has_ended undefined = false
has_ended running = false
has_ended _ = true

unfoldable pub completed :
    ProcessorEnv
    → ImmediateTaskRow
    → PrepareStateExecutionResponse
    → CompleteExecuteExecutionResponse
    → Action Done
completed env task prep resp =
    if is_some resp.app_database_writing_error then raise app_database_error else (do
      notify_if resp.has_new_immediate_task (new_task_of task prep)
      notify_if (env.has_completion_channels task.shard_id && has_ended resp.process_status)
          (process_ended task.shard_id task.process_execution_id resp.process_status))

abbrev pub execute_request :
    ImmediateTaskRow
    → PrepareStateExecutionResponse
    → ExecuteAnswer
    → CompleteExecuteExecutionRequest
execute_request task prep answer = record {
  key = key_of_task task;
  previous_version = prep.previous_version;
  info = prep.info;
  state_decision = answer.state_decision;
  publish = answer.publish;
  app_database_config = prep.info.app_database_config;
  write_app_database = answer.write_to_app_database;
  update_local_attributes = answer.write_to_local_attributes;
  task_shard_id = task.shard_id;
  task_sequence = task.task_sequence;
}

unfoldable pub complete_execute :
    ProcessorEnv → ImmediateTaskRow → PrepareStateExecutionResponse → ExecuteAnswer → Action Done
unfolding complete_execute_execution completed
complete_execute env task prep answer = do
  resp ← call (
      complete_execute_execution env.connection env.drawn (execute_request task prep answer)
        (env.clock 3) env.app_answer)
  completed env task prep resp

-- A value that is read for the worker; an error counts as a failed call without a response.
abbrev pub or_failed :
    {A : Type 0}
    → ProcessorEnv
    → ImmediateTaskRow
    → WorkerTaskBackoffInfo
    → PrepareStateExecutionResponse
    → Result A
    → (A → Action Done)
    → Action Done
or_failed env task backoff prep (err x) f =
    retry_or_recover env
      (failed_attempt env task backoff prep execute_api (some (env.error_text x)) none)
or_failed env task backoff prep (ok a) f = f a

abbrev pub execute_call :
    ProcessorEnv
    → ImmediateTaskRow
    → WorkerTaskBackoffInfo
    → PrepareStateExecutionResponse
    → ℕ
    → List (GoString × List Columns)
    → List KeyValue
    → ExecuteCall
execute_call env task backoff prep timeout tables attributes = record {
  url = env.fix_worker_url prep.info.worker_url;
  timeout = timeout;
  context = create_api_context prep task backoff;
  process_type = prep.info.process_type;
  state_id = task.state_id;
  state_input = prep.input;
  command_results = prep.wait_until_command_results;
  app_database_read_response = tables;
  loaded_local_attributes = attributes;
}

-- What follows the answer of the worker
unfoldable pub execute_answered :
    ProcessorEnv
    → ImmediateTaskRow
    → WorkerTaskBackoffInfo
    → PrepareStateExecutionResponse
    → HttpAnswer ExecuteAnswer
    → Action Done
unfolding complete_execute retry_or_recover
execute_answered env task backoff prep a =
    let error = error_or_invalid a.error a.answer.state_decision in
    if check_http_response_and_error error a.response
    then retry_or_recover env (failed_attempt env task backoff prep execute_api error a.response)
    else complete_execute env task prep a.answer

unfoldable pub execute_with_attributes :
    ProcessorEnv
    → ImmediateTaskRow
    → WorkerTaskBackoffInfo
    → PrepareStateExecutionResponse
    → ℕ
    → List (GoString × List Columns)
    → List KeyValue
    → Action Done
unfolding execute_answered
execute_with_attributes env task backoff prep timeout tables attributes =
    execute_answered env task backoff prep
      (env.call_execute (execute_call env task backoff prep timeout tables attributes))

unfoldable pub execute_with_tables :
    ProcessorEnv
    → ImmediateTaskRow
    → WorkerTaskBackoffInfo
    → PrepareStateExecutionResponse
    → ℕ
    → List (GoString × List Columns)
    → Action Done
unfolding execute_with_attributes load_local_attributes retry_or_recover
execute_with_tables env task backoff prep timeout tables db =
    or_failed env task backoff prep
      (load_local_attributes_if_needed task.process_execution_id prep.info.state_config db)
      (execute_with_attributes env task backoff prep timeout tables) db

-- processExecuteTask
unfoldable pub process_execute_task :
    ProcessorEnv → ImmediateTaskRow → PrepareStateExecutionResponse → Action Done
unfolding create_context_with_timeout execute_with_tables retry_or_recover
    read_app_database_if_needed
process_execute_task env task prep = do
  timeout ← lift (
      create_context_with_timeout env.default_async_state_api_timeout
        env.max_async_state_api_timeout task.task_type prep.info.state_config)
  let backoff = begin_attempt (env.clock 0) task.info.worker_task_backoff_info
  let counted = with_backoff task backoff
  or_failed env counted backoff prep (read_app_database_if_needed env prep)
      (execute_with_tables env counted backoff prep timeout)
