-- ===== src/Engine/ImmediateTasks.antt =====
-- engine/immediate_task_concurrent_processor.go: what follows a failed call of a worker, on the tables
-- of the process store, and what the tasks share.
use xdb.Prelude.{
  ℕ, ◌+◌, ◌%◌, ◌^◌, Bool, true, false, [], ◌∷◌, Option, none, some, if◌then◌else◌, GoString,
  missing_state_config, process_not_exists, unknown_policy,
}
use xdb.DataModels.Infos.{
  WorkerTaskBackoffInfo, AsyncStateConfig, state_config, RecoveryOptions, no_options, options,
  options_with, StateFailureRecoveryPolicy, fail_process_on_state_failure,
  proceed_to_configured_state, other_recovery, WorkerApiType, AsyncStateExecutionInfo,
}
use xdb.Database.Rows.{StateKey, ImmediateTaskRow}
use xdb.Database.Tx.{Done}
use xdb.Process.Stop.{StopProcessRequest, fail_type, stop_process}
use xdb.Process.Retries.{
  BackoffImmediateTaskRequest, RecoverFromStateExecutionFailureRequest, backoff_immediate_task,
  recover_from_state_execution_failure,
}
use xdb.Process.Reads.{PrepareStateExecutionResponse}
use xdb.Engine.Actions.{
  Action, Notification, new_immediate_tasks, new_timer_tasks, ◌>>=◌, ◌>>◌, pure, lift, raise, call,
  notify,
}
use xdb.Engine.Backoff.{to_int64}
use xdb.Engine.WorkerCalls.{ProcessorEnv, HttpResponse, compose_http_error, check_retry}

abbrev pub notify_if : Bool → Notification → Action Done
notify_if true n = notify n
notify_if false n = pure tt

abbrev pub partition_of : AsyncStateExecutionInfo → Option (GoString × GoString)
partition_of info = some (info.namespace, info.process_id)

abbrev pub key_of_task : ImmediateTaskRow → StateKey
key_of_task t = (t.process_execution_id, (t.state_id, t.state_id_sequence))

-- notifyNewImmediateTask
abbrev pub new_task_of : ImmediateTaskRow → PrepareStateExecutionResponse → Notification
new_task_of task prep =
    new_immediate_tasks task.shard_id (partition_of prep.info) task.process_execution_id

-- A worker call that failed: the task with the attempt counted, and the API.
pub record FailedAttempt : Type 0 where
  pub task : ImmediateTaskRow
  pub backoff : WorkerTaskBackoffInfo
  pub prep : PrepareStateExecutionResponse
  pub api : WorkerApiType
  pub status : ℕ
  pub details : GoString

abbrev pub fire_time : ProcessorEnv → ℕ → ℕ
fire_time env interval = (env.clock 2 + to_int64 interval) % 2 ^ 64

abbrev pub backoff_request : ProcessorEnv → FailedAttempt → ℕ → BackoffImmediateTaskRequest
backoff_request env f interval = record {
  task = f.task;
  status = f.prep.status;
  previous_version = f.prep.previous_version;
  last_failure_status = f.status;
  last_failure_details = f.details;
  fire_timestamp_seconds = fire_time env interval;
}

-- retryTask
unfoldable pub retry_task : ProcessorEnv → FailedAttempt → ℕ → Action Done
unfolding backoff_immediate_task
retry_task env f interval = do
  call (
      backoff_immediate_task env.connection (backoff_request env f interval) (env.clock 3)
        env.app_answer)
  notify (
      new_timer_tasks f.task.shard_id (partition_of f.prep.info) f.task.process_execution_id
        (fire_time env interval ∷ []))

-- The stop of the latest process execution of the process; the request has no shard for new tasks.
abbrev pub failure_stop : FailedAttempt → StopProcessRequest
failure_stop f = record {
  namespace = f.prep.info.namespace;
  process_id = f.prep.info.process_id;
  process_stop_type = fail_type;
  new_task_shard_id = 0;
}

unfoldable pub stop_for_failure : ProcessorEnv → FailedAttempt → Action Done
unfolding stop_process
stop_for_failure env f = do
  resp ← call (stop_process env.connection (failure_stop f) (env.clock 3) env.app_answer)
  if resp.not_exists then raise process_not_exists else pure tt

abbrev pub recovery_request :
    FailedAttempt → GoString → Option AsyncStateConfig → RecoverFromStateExecutionFailureRequest
recovery_request f state_id config = record {
  process_execution_id = f.task.process_execution_id;
  previous_version = f.prep.previous_version;
  info = f.prep.info;
  source = record { state_id = f.task.state_id; state_id_sequence = f.task.state_id_sequence };
  source_failed_state_api = f.api;
  last_failure_status = f.status;
  last_failure_details = f.details;
  last_failure_completed_attempts = f.backoff.completed_attempts;
  destination_state_id = state_id;
  destination_state_config = config;
  destination_state_input = f.prep.input;
  shard_id = f.task.shard_id;
}

unfoldable pub proceed_to :
    ProcessorEnv → FailedAttempt → Option GoString → Option AsyncStateConfig → Action Done
unfolding recover_from_state_execution_failure
proceed_to env f none config = raise missing_state_config
proceed_to env f (some state_id) config = do
  call (
      recover_from_state_execution_failure env.connection (recovery_request f state_id config)
        (env.clock 3) env.app_answer)
  notify (new_task_of f.task f.prep)

abbrev pub by_policy :
    ProcessorEnv
    → FailedAttempt
    → StateFailureRecoveryPolicy
    → Option GoString
    → Option AsyncStateConfig
    → Action Done
by_policy env f fail_process_on_state_failure state_id config = stop_for_failure env f
by_policy env f proceed_to_configured_state state_id config = proceed_to env f state_id config
by_policy env f other_recovery state_id config = raise unknown_policy

abbrev pub by_options : ProcessorEnv → FailedAttempt → RecoveryOptions → Action Done
by_options env f no_options = stop_for_failure env f
by_options env f (options policy state_id) = by_policy env f policy state_id none
by_options env f (options_with policy state_id config) =
    by_policy env f policy state_id (some config)

abbrev pub recovery_options : Option AsyncStateConfig → RecoveryOptions
recovery_options none = no_options
recovery_options (some (state_config _ recovery)) = recovery

-- applyStateFailureRecoveryPolicy
unfoldable pub apply_state_failure_recovery_policy : ProcessorEnv → FailedAttempt → Action Done
unfolding stop_for_failure proceed_to
apply_state_failure_recovery_policy env f =
    by_options env f (recovery_options f.prep.info.state_config)

-- What follows a worker call that failed: another attempt, or the recovery policy.
unfoldable pub retry_or_recover : ProcessorEnv → FailedAttempt → Action Done
unfolding check_retry retry_task apply_state_failure_recovery_policy
retry_or_recover env f = do
  decision ← lift (check_retry env f.task.task_type f.backoff f.prep.info)
  if decision.1 then retry_task env f decision.0 else apply_state_failure_recovery_policy env f

abbrev pub failed_attempt :
    ProcessorEnv
    → ImmediateTaskRow
    → WorkerTaskBackoffInfo
    → PrepareStateExecutionResponse
    → WorkerApiType
    → Option GoString
    → Option HttpResponse
    → FailedAttempt
failed_attempt env task backoff prep api error response =
    let described = compose_http_error env.max_state_api_failure_detail_size error response in
    record {
      task = task;
      backoff = backoff;
      prep = prep;
      api = api;
      status = described.0;
      details = described.1;
    }

-- The task with its back-off info; the counted attempt is in it.
abbrev pub with_backoff : ImmediateTaskRow → WorkerTaskBackoffInfo → ImmediateTaskRow
with_backoff task backoff = record task {
  row = record task.row { info = record task.info { worker_task_backoff_info = some backoff } };
}
