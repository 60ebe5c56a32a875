-- ===== src/Service/Api.antt =====
-- service/api/service_impl.go: the requests of clients, on the tables of the process store. A request
-- to the async service is the notification that it carries; it is sent in the background.
pub mod Rpc
pub mod Starting
use xdb.Prelude.{
  ℕ, ◌+◌, ◌%◌, ◌^◌, Bool, true, false, List, [], ◌∷◌, ◌++◌, Option, none, some, Error, Result, ok,
  err, if◌then◌else◌, ltb, ◌==◌, GoString, is_some,
}
use xdb.Prelude.Maps.{is_empty}
use xdb.DataModels.Infos.{
  Uuid, EncodedObject, StateDecision, Columns, AppDatabaseConfig, TableReadRequest,
}
use xdb.Database.Rows.{Db, ProcessExecutionRow}
use xdb.Database.Tx.{Connection, AppAnswer}
use xdb.Process.Start.{
  ProcessExecutionStartRequest, StartProcessRequest, StartProcessResponse, timeout_of,
}
use xdb.Process.Policies.{start_process}
use xdb.Process.Stop.{StopProcessRequest, StopProcessResponse, StopType, stop_process}
use xdb.Process.Publish.{
  LocalQueueMessage, PublishToLocalQueueRequest, PublishToLocalQueueResponse,
  publish_to_local_queue_op,
}
use xdb.Process.AppDatabase.{TableWrite}
use xdb.Process.Rpc.{
  UpdateProcessExecutionForRpcRequest, UpdateProcessExecutionForRpcResponse,
  update_process_execution_for_rpc,
}
use xdb.Process.Reads.{
  LatestProcess, not_exists, latest_process, get_latest_process_execution, TableReads,
  read_app_database,
}
use xdb.Engine.Backoff.{greater32}
use xdb.Engine.Actions.{Notification, new_immediate_tasks, new_timer_tasks}
use xdb.Engine.WorkerCalls.{HttpResponse, HttpAnswer, check_http_response_and_error, nanoseconds}
use xdb.Engine.ExecuteTasks.{validate_decision}

-- A response, or ErrorWithStatus with its status
pub data Answer (A : Type 0) : Type 0 where
  answer : A → Answer A
  error_with_status : ℕ → Answer A
  panics : Answer A

abbrev pub Done : Type 0
Done = Unit

-- ProcessRpcWorkerRequest and its response
pub record RpcCall : Type 0 where
  pub url : GoString
  pub timeout : ℕ
  pub process_id : GoString
  pub process_execution_id : Uuid
  pub process_started_timestamp : ℕ
  pub process_type : GoString
  pub rpc_name : GoString
  pub input : Option EncodedObject
  pub app_database_read_response : List (GoString × List Columns)

pub record RpcAnswer : Type 0 where
  pub output : Option EncodedObject
  pub state_decision : StateDecision
  pub publish : List LocalQueueMessage
  pub write_to_app_database : List TableWrite

-- What the service takes from outside: `shard` is the random shard.
pub record ApiEnv : Type 0 where
  pub connection : Connection
  pub app_answer : AppAnswer
  pub table_reads : TableReads
  pub drawn : ℕ → Uuid
  pub shard : ℕ
  pub now : ℕ
  pub default_rpc_api_timeout : ℕ
  pub max_rpc_api_timeout : ℕ
  pub fix_worker_url : GoString → GoString
  pub call_rpc : RpcCall → HttpAnswer RpcAnswer

abbrev pub Served : Type 0 → Type 0
Served A = Answer A × Db × List Notification

abbrev pub sent_if : Bool → Notification → List Notification
sent_if true n = n ∷ []
sent_if false n = []

-- StartProcess
abbrev pub timeout_time : ℕ → ℕ → ℕ
timeout_time now seconds = if greater32 seconds 0 then (now + seconds) % 2 ^ 64 else 0

abbrev pub store_request : ApiEnv → ProcessExecutionStartRequest → StartProcessRequest
store_request env r = record {
  request = r;
  new_task_shard_id = env.shard;
  timeout_time_unix_seconds = timeout_time env.now (timeout_of r.process_start_config);
}

abbrev pub start_notifications : StartProcessRequest → StartProcessResponse → List Notification
start_notifications r resp =
    let partition = some (r.namespace, r.process_id) in
    sent_if resp.has_new_immediate_task
      (new_immediate_tasks r.new_task_shard_id partition resp.process_execution_id)
    ++ (if r.timeout_time_unix_seconds == 0
        then []
        else new_timer_tasks r.new_task_shard_id partition resp.process_execution_id
            (r.timeout_time_unix_seconds ∷ [])
          ∷ [])

abbrev pub start_answered : StartProcessRequest → Result StartProcessResponse → Db → Served Uuid
start_answered r (err _) db = (error_with_status 500, db, [])
start_answered r (ok resp) db =
    if resp.already_started
    then (error_with_status 409, db, [])
    else if is_some resp.app_database_writing_error
    then (error_with_status 424, db, [])
    else (answer resp.process_execution_id, db, start_notifications r resp)

unfoldable pub api_start_process : ApiEnv → ProcessExecutionStartRequest → Db → Served Uuid
unfolding start_process
api_start_process env r db =
    let o =
      start_process env.connection (store_request env r) (env.drawn 0) env.now env.app_answer db in
    start_answered (store_request env r) o.0 o.1

-- StopProcess; the shard for new tasks is not set.
abbrev pub stop_answered : Result StopProcessResponse → Db → Served Done
stop_answered (err _) db = (error_with_status 500, db, [])
stop_answered (ok resp) db =
    if resp.not_exists then (error_with_status 404, db, []) else (answer tt, db, [])

unfoldable pub api_stop_process : ApiEnv → GoString × GoString → StopType → Db → Served Done
unfolding stop_process
api_stop_process env (namespace, process_id) type db =
    let r : StopProcessRequest = record {
      namespace = namespace;
      process_id = process_id;
      process_stop_type = type;
      new_task_shard_id = 0;
    } in
    let o = stop_process env.connection r env.now env.app_answer db in stop_answered o.0 o.1

-- DescribeLatestProcess: the id and the row that the response is made of
abbrev pub described : Result LatestProcess → Answer (Uuid × ProcessExecutionRow)
described (err _) = error_with_status 500
described (ok not_exists) = error_with_status 404
described (ok (latest_process id row)) = answer (id, row)

unfoldable pub api_describe_latest_process :
    GoString × GoString → Db → Answer (Uuid × ProcessExecutionRow)
unfolding get_latest_process_execution
api_describe_latest_process key db = described (get_latest_process_execution key db)

-- PublishToLocalQueue
abbrev pub publish_answered :
    PublishToLocalQueueRequest → Result PublishToLocalQueueResponse → Db → Served Done
publish_answered r (err _) db = (error_with_status 500, db, [])
publish_answered r (ok resp) db =
    if resp.process_not_exists
    then (error_with_status 404, db, [])
    else if resp.process_not_running
    then (error_with_status 405, db, [])
    else (
      answer tt,
      db,
      sent_if resp.has_new_immediate_task (
          new_immediate_tasks resp.shard_id (some (r.namespace, r.process_id))
            resp.process_execution_id),
    )

unfoldable pub api_publish_to_local_queue : ApiEnv → PublishToLocalQueueRequest → Db → Served Done
unfolding publish_to_local_queue_op
api_publish_to_local_queue env r db =
    let o = publish_to_local_queue_op env.connection env.drawn r env.now env.app_answer db in
    publish_answered r o.0 o.1
