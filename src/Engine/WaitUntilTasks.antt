-- ===== src/Engine/WaitUntilTasks.antt =====
-- engine/immediate_task_concurrent_processor.go: processWaitUntilTask.
use xdb.Prelude.{ℕ, not, if◌then◌else◌}
use xdb.Prelude.Maps.{is_empty}
use xdb.DataModels.Infos.{WorkerTaskBackoffInfo, wait_until_api}
use xdb.Database.Rows.{ImmediateTaskRow}
use xdb.Database.Tx.{Done}
use xdb.Process.WaitUntil.{ProcessWaitUntilExecutionRequest, process_wait_until_execution}
use xdb.Process.Reads.{PrepareStateExecutionResponse}
use xdb.Engine.Actions.{Action, new_timer_tasks, ◌>>=◌, ◌>>◌, lift, call}
use xdb.Engine.WorkerCalls.{
  ProcessorEnv, HttpAnswer, WaitUntilAnswer, WaitUntilCall, compose_http_error,
  check_http_response_and_error, create_context_with_timeout, begin_attempt, create_api_context,
}
use xdb.Engine.ImmediateTasks.{
  notify_if, partition_of, key_of_task, new_task_of, retry_or_recover, failed_attempt, with_backoff,
}

abbrev pub wait_until_request :
    ImmediateTaskRow
    → PrepareStateExecutionResponse
    → WaitUntilAnswer
    → ProcessWaitUntilExecutionRequest
wait_until_request task prep answer = record {
  key = key_of_task task;
  previous_version = prep.previous_version;
  command_request = answer.command_request;
  publish = answer.publish;
  task_shard_id = task.shard_id;
  task_sequence = task.task_sequence;
}

unfoldable pub complete_wait_until :
    ProcessorEnv → ImmediateTaskRow → PrepareStateExecutionResponse → WaitUntilAnswer → Action Done
unfolding process_wait_until_execution
complete_wait_until env task prep answer = do
  resp ← call (
      process_wait_until_execution env.connection env.drawn (wait_until_request task prep answer)
        (env.clock 3) env.app_answer)
  notify_if resp.has_new_immediate_task (new_task_of task prep)
  notify_if (not (is_empty resp.fire_timestamps)) (
      new_timer_tasks task.shard_id (partition_of prep.info) task.process_execution_id
        resp.fire_timestamps)

abbrev pub wait_until_call :
    ProcessorEnv
    → ImmediateTaskRow
    → WorkerTaskBackoffInfo
    → PrepareStateExecutionResponse
    → ℕ
    → WaitUntilCall
wait_until_call env task backoff prep timeout = record {
  url = env.fix_worker_url prep.info.worker_url;
  timeout = timeout;
  context = create_api_context prep task backoff;
  process_type = prep.info.process_type;
  state_id = task.state_id;
  state_input = prep.input;
}

-- What follows the answer of the worker
unfoldable pub wait_until_answered :
    ProcessorEnv
    → ImmediateTaskRow
    → WorkerTaskBackoffInfo
    → PrepareStateExecutionResponse
    → HttpAnswer WaitUntilAnswer
    → Action Done
unfolding retry_or_recover complete_wait_until compose_http_error
wait_until_answered env task backoff prep a =
    if check_http_response_and_error a.error a.response
    then retry_or_recover env
        (failed_attempt env task backoff prep wait_until_api a.error a.response)
    else complete_wait_until env task prep a.answer

-- processWaitUntilTask
unfoldable pub process_wait_until_task :
    ProcessorEnv → ImmediateTaskRow → PrepareStateExecutionResponse → Action Done
unfolding create_context_with_timeout wait_until_answered
process_wait_until_task env task prep = do
  timeout ← lift (
      create_context_with_timeout env.default_async_state_api_timeout
        env.max_async_state_api_timeout task.task_type prep.info.state_config)
  let backoff = begin_attempt (env.clock 0) task.info.worker_task_backoff_info
  let counted = with_backoff task backoff
  wait_until_answered env counted backoff prep
      (env.call_wait_until (wait_until_call env counted backoff prep timeout))
