-- ===== src/Service/Api/Rpc.antt =====
-- service/api/service_impl.go: Rpc.
use xdb.Prelude.{
  ℕ, List, [], Option, none, some, Result, ok, err, if◌then◌else◌, ltb, GoString, is_some,
}
use xdb.DataModels.Infos.{Uuid, EncodedObject, Columns, AppDatabaseConfig, TableReadRequest}
use xdb.Database.Rows.{Db, ProcessExecutionRow}
use xdb.Process.Rpc.{
  UpdateProcessExecutionForRpcRequest, UpdateProcessExecutionForRpcResponse,
  update_process_execution_for_rpc,
}
use xdb.Process.Reads.{
  LatestProcess, not_exists, latest_process, get_latest_process_execution, read_app_database,
}
use xdb.Engine.Backoff.{greater32}
use xdb.Engine.Actions.{new_immediate_tasks}
use xdb.Engine.WorkerCalls.{HttpResponse, HttpAnswer, check_http_response_and_error, nanoseconds}
use xdb.Engine.ExecuteTasks.{validate_decision}
use xdb.Service.Api.{
  Answer, answer, error_with_status, panics, RpcCall, RpcAnswer, ApiEnv, Served, sent_if,
}

-- ProcessExecutionRpcRequest
pub record RpcRequest : Type 0 where
  pub namespace : GoString
  pub process_id : GoString
  pub rpc_name : GoString
  pub input : Option EncodedObject
  pub timeout_seconds : ℕ
  pub app_database_read_request : List TableReadRequest

-- createContextWithTimeoutForRpc: the timeout
unfoldable pub create_context_with_timeout_for_rpc : ℕ → ℕ → ℕ → ℕ
create_context_with_timeout_for_rpc default maximum seconds =
    let timeout = if greater32 seconds 0 then nanoseconds seconds else default in
    if ltb maximum timeout then maximum else timeout

abbrev pub read_tables :
    ApiEnv → RpcRequest → Option AppDatabaseConfig → Result (List (GoString × List Columns))
read_tables env r none = ok []
read_tables env r (some config) =
    read_app_database env.table_reads config r.app_database_read_request

abbrev pub rpc_call :
    ApiEnv → RpcRequest → Uuid → ProcessExecutionRow → List (GoString × List Columns) → RpcCall
rpc_call env r id row tables = record {
  url = env.fix_worker_url row.info.worker_url;
  timeout =
      create_context_with_timeout_for_rpc env.default_rpc_api_timeout env.max_rpc_api_timeout
        r.timeout_seconds;
  process_id = r.process_id;
  process_execution_id = id;
  process_started_timestamp = row.start_time;
  process_type = row.info.process_type;
  rpc_name = r.rpc_name;
  input = r.input;
  app_database_read_response = tables;
}

-- The details of the answer are made of err.Error() and of httpResp.Status, without a test for nil.
abbrev pub rpc_failed : {A : Type 0} → Option GoString → Option HttpResponse → Answer A
rpc_failed (some _) (some _) = error_with_status 424
rpc_failed _ _ = panics

abbrev pub update_request :
    RpcRequest → Uuid → ProcessExecutionRow → RpcAnswer → UpdateProcessExecutionForRpcRequest
update_request r id row a = record {
  namespace = r.namespace;
  process_id = r.process_id;
  process_type = row.info.process_type;
  process_execution_id = id;
  state_decision = a.state_decision;
  publish = a.publish;
  app_database_config = row.info.app_database_config;
  app_database_write = a.write_to_app_database;
  worker_url = row.info.worker_url;
  task_shard_id = row.shard_id;
}

abbrev pub updated :
    RpcRequest
    → Uuid
    → ProcessExecutionRow
    → Option EncodedObject
    → Result UpdateProcessExecutionForRpcResponse
    → Db
    → Served (Option EncodedObject)
updated r id row output (err _) db = (error_with_status 500, db, [])
updated r id row output (ok resp) db =
    if is_some resp.writing_app_database_error
    then (error_with_status 424, db, [])
    else if resp.process_not_exists
    then (error_with_status 404, db, [])
    else (
      answer output,
      db,
      sent_if resp.has_new_immediate_task
          (new_immediate_tasks row.shard_id (some (r.namespace, r.process_id)) id),
    )

abbrev pub update_if :
    ApiEnv
    → RpcRequest
    → Uuid
    → ProcessExecutionRow
    → RpcAnswer
    → Option GoString
    → Db
    → Served (Option EncodedObject)
update_if env r id row a (some _) db = (error_with_status 400, db, [])
update_if env r id row a none db =
    let o =
      update_process_execution_for_rpc env.connection env.drawn (update_request r id row a) env.now
        env.app_answer db in
    updated r id row a.output o.0 o.1

unfoldable pub rpc_answered :
    ApiEnv
    → RpcRequest
    → Uuid
    → ProcessExecutionRow
    → HttpAnswer RpcAnswer
    → Db
    → Served (Option EncodedObject)
unfolding update_process_execution_for_rpc
rpc_answered env r id row a db =
    if check_http_response_and_error a.error a.response
    then (rpc_failed a.error a.response, db, [])
    else update_if env r id row a.answer (validate_decision a.answer.state_decision) db

abbrev pub call_with :
    ApiEnv
    → RpcRequest
    → Uuid
    → ProcessExecutionRow
    → Result (List (GoString × List Columns))
    → Db
    → Served (Option EncodedObject)
call_with env r id row (err _) db = (error_with_status 500, db, [])
call_with env r id row (ok tables) db =
    rpc_answered env r id row (env.call_rpc (rpc_call env r id row tables)) db

abbrev pub rpc_latest :
    ApiEnv → RpcRequest → Result LatestProcess → Db → Served (Option EncodedObject)
rpc_latest env r (err _) db = (error_with_status 500, db, [])
rpc_latest env r (ok not_exists) db = (error_with_status 404, db, [])
rpc_latest env r (ok (latest_process id row)) db =
    call_with env r id row (read_tables env r row.info.app_database_config) db

-- Rpc
unfoldable pub api_rpc : ApiEnv → RpcRequest → Db → Served (Option EncodedObject)
unfolding get_latest_process_execution read_app_database rpc_answered
    create_context_with_timeout_for_rpc
api_rpc env r db = rpc_latest env r (get_latest_process_execution (r.namespace, r.process_id) db) db
