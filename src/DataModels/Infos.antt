-- ===== src/DataModels/Infos.antt =====
-- The API values that the code reads (package xcapi, its fields as far as the code uses them) and
-- the JSON columns of persistence/data_models. A column holds the value that its JSON text
-- encodes; a pointer that may be nil is an Option.
use xdb.Prelude.{ℕ, Bool, false, List, [], Option, none, some, GoMap, GoString}
use xdb.DataModels.Enums.{ProcessExecutionStatus, ImmediateTaskType}
use xdb.DataModels.LocalQueues.{
  LocalQueueCommand, LocalQueueMessageInfo, CommandWaitingType, empty_command,
}

-- A UUID is a number.
abbrev pub Uuid : Type 0
Uuid = ℕ

-- xcapi.EncodedObject
pub record EncodedObject : Type 0 where
  pub encoding : GoString
  pub contents : GoString

-- FromEncodedObjectIntoBytes: a missing object is stored as the empty one.
abbrev pub from_encoded_object : Option EncodedObject → EncodedObject
from_encoded_object none = record { encoding = []; contents = [] }
from_encoded_object (some o) = o

-- xcapi.RetryPolicy, with the type of its float coefficient as a parameter
pub record RetryPolicy {ℓ} (F : Type ℓ) : Type ℓ where
  pub initial_interval_seconds : Option ℕ
  pub backoff_coefficient : Option F
  pub maximum_interval_seconds : Option ℕ
  pub maximum_attempts : Option ℕ
  pub maximum_attempts_duration_seconds : Option ℕ

-- xcapi.AppDatabaseTableReadRequest, and whether its lock type is another than NO_LOCKING
pub record TableReadRequest : Type 0 where
  pub table_name : GoString
  pub columns : List GoString
  pub locks : Bool

-- xcapi.LoadLocalAttributesRequest
pub record LoadLocalAttributesRequest : Type 0 where
  pub keys_to_load_no_lock : List GoString
  pub keys_to_load_with_lock : List GoString

-- The fields of xcapi.AsyncStateConfig but its StateFailureRecoveryOptions; a coefficient is the
-- pattern of a float32.
pub record StateApis : Type 0 where
  pub skip_wait_until : Bool
  pub wait_until_api_timeout_seconds : ℕ
  pub execute_api_timeout_seconds : ℕ
  pub wait_until_api_retry_policy : Option (RetryPolicy ℕ)
  pub execute_api_retry_policy : Option (RetryPolicy ℕ)
  pub app_database_read_request : Option (List TableReadRequest)
  pub load_local_attributes_request : Option LoadLocalAttributesRequest

-- xcapi.StateFailureRecoveryPolicy; `other_recovery` is any other string
pub data StateFailureRecoveryPolicy : Type 0 where
  fail_process_on_state_failure proceed_to_configured_state other_recovery :
      StateFailureRecoveryPolicy

-- xcapi.AsyncStateConfig and its StateFailureRecoveryOptions, the latter with and without a
-- configuration of the state to proceed to
mutual
  pub data AsyncStateConfig : Type 0 where
    state_config : StateApis → RecoveryOptions → AsyncStateConfig

  pub data RecoveryOptions : Type 0 where
    no_options : RecoveryOptions
    options : StateFailureRecoveryPolicy → Option GoString → RecoveryOptions
    options_with : StateFailureRecoveryPolicy → Option GoString → AsyncStateConfig → RecoveryOptions

-- GetSkipWaitUntil
abbrev pub get_skip_wait_until : Option AsyncStateConfig → Bool
get_skip_wait_until none = false
get_skip_wait_until (some (state_config apis _)) = apis.skip_wait_until

-- xcapi.TimerCommand: its delay may be negative, as `before`
pub data TimerCommand : Type 0 where
  after before : ℕ → TimerCommand

-- A negative delay counts as 0.
abbrev pub delay_in_seconds : TimerCommand → ℕ
delay_in_seconds (after n) = n
delay_in_seconds (before n) = 0

-- xcapi.CommandRequest
pub record CommandRequest : Type 0 where
  pub waiting_type : CommandWaitingType
  pub timer_commands : List TimerCommand
  pub local_queue_commands : List LocalQueueCommand

abbrev pub empty_command_request : CommandRequest
empty_command_request = record {
  waiting_type = empty_command;
  timer_commands = [];
  local_queue_commands = [];
}

-- xcapi.LocalQueueMessageResult
pub record LocalQueueMessageResult : Type 0 where
  pub dedup_id : Uuid
  pub payload : EncodedObject

-- CommandResultsJson
pub record CommandResults : Type 0 where
  pub timer_results : GoMap ℕ Bool
  pub local_queue_results : GoMap ℕ (List LocalQueueMessageResult)

-- NewCommandResultsJson
abbrev pub new_command_results : CommandResults
new_command_results = record { timer_results = []; local_queue_results = [] }

-- xcapi.StateMovement, ThreadCloseType and StateDecision
pub record StateMovement : Type 0 where
  pub state_id : GoString
  pub state_input : Option EncodedObject
  pub state_config : Option AsyncStateConfig

pub data ThreadCloseType : Type 0 where
  graceful_complete_process force_complete_process force_fail_process dead_end : ThreadCloseType

pub record StateDecision : Type 0 where
  pub next_states : List StateMovement
  pub thread_close_decision : Option ThreadCloseType

-- InternalAppDatabaseConfig: table name, then the configured primary keys
abbrev pub Columns : Type 0
Columns = GoMap GoString GoString

abbrev pub AppDatabaseConfig : Type 0
AppDatabaseConfig = GoMap GoString (List Columns)

-- ProcessExecutionInfoJson
pub record ProcessExecutionInfo : Type 0 where
  pub process_type : GoString
  pub worker_url : GoString
  pub app_database_config : Option AppDatabaseConfig

pub data WorkerApiType : Type 0 where
  wait_until_api execute_api : WorkerApiType

-- AsyncStateExecutionInfoJson
pub record AsyncStateExecutionInfo : Type 0 where
  pub namespace : GoString
  pub process_id : GoString
  pub process_type : GoString
  pub worker_url : GoString
  pub state_config : Option AsyncStateConfig
  pub recover_from_state_execution_id : Option GoString
  pub recover_from_api : Option WorkerApiType
  pub app_database_config : Option AppDatabaseConfig

-- StateExecutionFailureJson
pub record StateExecutionFailure : Type 0 where
  pub status_code : ℕ
  pub details : GoString
  pub completed_attempts : ℕ
  pub last_attempt_timestamp : ℕ

-- WorkerTaskBackoffInfoJson
pub record WorkerTaskBackoffInfo : Type 0 where
  pub completed_attempts : ℕ
  pub first_attempt_timestamp_seconds : ℕ

-- VisibilityInfoJson
pub record VisibilityInfo : Type 0 where
  pub namespace : GoString
  pub process_id : GoString
  pub process_type : GoString
  pub process_execution_id : Uuid
  pub status : ProcessExecutionStatus
  pub start_time : Option ℕ
  pub close_time : Option ℕ

-- ImmediateTaskInfoJson
pub record ImmediateTaskInfo : Type 0 where
  pub worker_task_backoff_info : Option WorkerTaskBackoffInfo
  pub local_queue_message_info : List LocalQueueMessageInfo
  pub visibility_info : Option VisibilityInfo

abbrev pub no_task_info : ImmediateTaskInfo
no_task_info = record {
  worker_task_backoff_info = none;
  local_queue_message_info = [];
  visibility_info = none;
}

-- TimerTaskInfoJson
pub record TimerTaskInfo : Type 0 where
  pub worker_task_backoff_info : Option WorkerTaskBackoffInfo
  pub worker_task_type : Option ImmediateTaskType
  pub timer_command_index : ℕ

abbrev pub no_timer_info : TimerTaskInfo
no_timer_info = record {
  worker_task_backoff_info = none;
  worker_task_type = none;
  timer_command_index = 0;
}
