-- ===== src/Engine/WorkerCalls.antt =====
-- The calls of the worker in engine/immediate_task_concurrent_processor.go: their requests, what
-- counts as a failure, and its description. The worker, HTTP, the configuration, the clock and
-- floats are fields of an environment.
use xdb.Prelude.{
  ℕ, ◌+◌, ◌*◌, ◌%◌, ◌^◌, Bool, true, false, not, ◌||◌, List, ◌++◌, Option, none, some, Result, ok,
  err, panic, Error, if◌then◌else◌, ltb, ◌==◌, length, take, GoString, codes,
}
use xdb.DataModels.Enums.{ImmediateTaskType, wait_until, execute}
use xdb.DataModels.Infos.{
  Uuid, EncodedObject, WorkerTaskBackoffInfo, AsyncStateConfig, state_config, StateApis,
  RetryPolicy, CommandRequest, StateDecision, WorkerApiType, AsyncStateExecutionInfo, Columns,
}
use xdb.DataModels.StateIds.{get_state_execution_id}
use xdb.Database.Rows.{ImmediateTaskRow}
use xdb.Database.Tx.{Connection, AppAnswer, Done}
use xdb.Process.AppDatabase.{KeyValue, TableWrite}
use xdb.Process.Publish.{LocalQueueMessage}
use xdb.Process.Pages.{CommandStatus, LocalQueueResult}
use xdb.Process.Reads.{PrepareStateExecutionResponse, TableReads}
use xdb.Engine.Backoff.{greater32, get_next_backoff}

-- xcapi.Context
pub record ApiContext : Type 0 where
  pub process_id : GoString
  pub process_execution_id : Uuid
  pub state_execution_id : GoString
  pub attempt : ℕ
  pub first_attempt_timestamp : ℕ
  pub recover_from_state_execution_id : Option GoString
  pub recover_from_api : Option WorkerApiType

-- xcapi.AsyncStateWaitUntilRequest and AsyncStateExecuteRequest, with the server and the timeout
pub record WaitUntilCall : Type 0 where
  pub url : GoString
  pub timeout : ℕ
  pub context : ApiContext
  pub process_type : GoString
  pub state_id : GoString
  pub state_input : EncodedObject

pub record ExecuteCall : Type 0 where
  pub url : GoString
  pub timeout : ℕ
  pub context : ApiContext
  pub process_type : GoString
  pub state_id : GoString
  pub state_input : EncodedObject
  pub command_results : List CommandStatus × List LocalQueueResult
  pub app_database_read_response : List (GoString × List Columns)
  pub loaded_local_attributes : List KeyValue

-- xcapi.AsyncStateWaitUntilResponse and AsyncStateExecuteResponse
pub record WaitUntilAnswer : Type 0 where
  pub command_request : CommandRequest
  pub publish : List LocalQueueMessage

pub record ExecuteAnswer : Type 0 where
  pub state_decision : StateDecision
  pub publish : List LocalQueueMessage
  pub write_to_app_database : List TableWrite
  pub write_to_local_attributes : List KeyValue

-- An HTTP response: its status, and its body unless that cannot be read. An answer has the text of
-- an error where there is one.
pub record HttpResponse : Type 0 where
  pub status_code : ℕ
  pub body : Option GoString

pub record HttpAnswer (A : Type 0) : Type 0 where
  pub answer : A
  pub error : Option GoString
  pub response : Option HttpResponse

-- What a task processor takes from outside. `clock i` is its reading number i: 0 for a first attempt,
-- 1 for the retry policy, 2 for the fire time, 3 in the transaction. `records_status` and
-- `deletes_tasks` are what the database answers outside a transaction to the statement that records a
-- status and to a deletion.
pub record ProcessorEnv : Type 0 where
  pub connection : Connection
  pub app_answer : AppAnswer
  pub table_reads : TableReads
  pub drawn : ℕ → Uuid
  pub clock : ℕ → ℕ
  pub default_coefficient : ℕ
  pub scaled : ℕ → ℕ → ℕ → ℕ
  pub default_async_state_api_timeout : ℕ
  pub max_async_state_api_timeout : ℕ
  pub max_state_api_failure_detail_size : ℕ
  pub error_text : Error → GoString
  pub fix_worker_url : GoString → GoString
  pub call_wait_until : WaitUntilCall → HttpAnswer WaitUntilAnswer
  pub call_execute : ExecuteCall → HttpAnswer ExecuteAnswer
  pub records_status : Result Done
  pub deletes_tasks : Result Done
  pub has_completion_channels : ℕ → Bool

-- CheckHttpResponseAndError of common/httperror/httperror.go
abbrev pub is_not_ok : Option HttpResponse → Bool
is_not_ok none = false
is_not_ok (some r) = not (r.status_code == 200)

abbrev pub is_error : Option GoString → Bool
is_error none = false
is_error (some _) = true

abbrev pub check_http_response_and_error : Option GoString → Option HttpResponse → Bool
check_http_response_and_error error response = is_error error || is_not_ok response

abbrev pub error_message : Option GoString → GoString
error_message none = codes "<nil>"
error_message (some text) = text

abbrev pub body_text : Option GoString → GoString
body_text none = codes "cannot read body from http response"
body_text (some text) = text

abbrev pub response_body : Option HttpResponse → GoString
response_body none = codes "None"
response_body (some r) = body_text r.body

abbrev pub response_status : Option HttpResponse → ℕ
response_status none = 0
response_status (some r) = r.status_code % 2 ^ 32

abbrev pub truncated : ℕ → GoString → GoString
truncated size details =
    if ltb size (length details) then take size details ++ codes "...(truncated)" else details

-- composeHttpError
unfoldable pub compose_http_error : ℕ → Option GoString → Option HttpResponse → ℕ × GoString
compose_http_error size error response = (
  response_status response,
  truncated size (
      codes "errMsg: "
      ++ (error_message error ++ (codes ", responseBody: " ++ response_body response))),
)

abbrev pub nanoseconds : ℕ → ℕ
nanoseconds seconds = seconds * 10 ^ 9

-- The timeout that a configuration asks for, in nanoseconds; other task types are a panic
abbrev pub configured_timeout : ℕ → ImmediateTaskType → StateApis → Result ℕ
configured_timeout default wait_until apis = ok (
    if greater32 apis.wait_until_api_timeout_seconds 0
    then nanoseconds apis.wait_until_api_timeout_seconds
    else default)
configured_timeout default execute apis = ok (
    if greater32 apis.execute_api_timeout_seconds 0
    then nanoseconds apis.execute_api_timeout_seconds
    else default)
configured_timeout default _ apis = err panic

abbrev pub capped : ℕ → Result ℕ → Result ℕ
capped maximum (err x) = err x
capped maximum (ok timeout) = ok (if ltb maximum timeout then maximum else timeout)

-- createContextWithTimeout: the timeout
unfoldable pub create_context_with_timeout :
    ℕ → ℕ → ImmediateTaskType → Option AsyncStateConfig → Result ℕ
create_context_with_timeout default maximum type none = ok default
create_context_with_timeout default maximum type (some (state_config apis _)) =
    capped maximum (configured_timeout default type apis)

-- checkRetry. The configuration is read without a test for nil.
abbrev pub retry_policy :
    ImmediateTaskType → Option AsyncStateConfig → Result (Option (RetryPolicy ℕ))
retry_policy wait_until (some (state_config apis _)) = ok apis.wait_until_api_retry_policy
retry_policy execute (some (state_config apis _)) = ok apis.execute_api_retry_policy
retry_policy _ _ = err panic

abbrev pub next_backoff :
    ProcessorEnv → WorkerTaskBackoffInfo → Result (Option (RetryPolicy ℕ)) → Result (ℕ × Bool)
next_backoff env info (err x) = err x
next_backoff env info (ok policy) = ok (
    get_next_backoff env.default_coefficient env.scaled info.completed_attempts
      info.first_attempt_timestamp_seconds policy (env.clock 1))

unfoldable pub check_retry :
    ProcessorEnv
    → ImmediateTaskType
    → WorkerTaskBackoffInfo
    → AsyncStateExecutionInfo
    → Result (ℕ × Bool)
unfolding get_next_backoff
check_retry env type backoff info = next_backoff env backoff (retry_policy type info.state_config)

-- createWorkerTaskBackoffInfo, and the count of the attempt that begins
abbrev pub or_first : ℕ → Option WorkerTaskBackoffInfo → WorkerTaskBackoffInfo
or_first now none = record { completed_attempts = 0; first_attempt_timestamp_seconds = now }
or_first now (some info) = info

abbrev pub begin_attempt : ℕ → Option WorkerTaskBackoffInfo → WorkerTaskBackoffInfo
begin_attempt now backoff =
    let info = or_first now backoff in
    record info { completed_attempts = (info.completed_attempts + 1) % 2 ^ 32 }

-- createApiContext
abbrev pub create_api_context :
    PrepareStateExecutionResponse → ImmediateTaskRow → WorkerTaskBackoffInfo → ApiContext
create_api_context prep task info = record {
  process_id = prep.info.process_id;
  process_execution_id = task.process_execution_id;
  state_execution_id =
      get_state_execution_id
        (record { state_id = task.state_id; state_id_sequence = task.state_id_sequence });
  attempt = info.completed_attempts;
  first_attempt_timestamp = info.first_attempt_timestamp_seconds;
  recover_from_state_execution_id = prep.info.recover_from_state_execution_id;
  recover_from_api = prep.info.recover_from_api;
}
