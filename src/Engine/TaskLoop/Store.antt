-- ===== src/Engine/TaskLoop/Store.antt =====
-- The operations of persistence/process that the processors call, as far as they leave the tables as
-- they were: where they fail, where they roll back, and a stop that finds no process execution.
use xdb.Prelude.{
  ℕ, Bool, true, false, not, Option, none, some, Result, ok, err, ◌≡◌, refl, ◌∙◌, is_some,
  if◌then◌else◌, GoString,
}
use xdb.DataModels.Enums.{is_running, ProcessExecutionStatus}
use xdb.DataModels.Infos.{Uuid}
use xdb.Database.Rows.{Db, ProcessExecutionRow, ProcessExecutionRowForUpdate}
use xdb.Database.Tx
use xdb.Database.Tx.{
  Done, Connection, AppAnswer, Tx, Env, run_tx, run_tx_err, finish, always_commits, get_now,
}
use xdb.Database.Tx.Runs.{Answers, bind-Answers, then-Answers, pure-Answers}
use xdb.Process.Publish.{latest_in_session, or_missing}
use xdb.Database.Statements.{
  select_latest_process_execution, select_process_execution_for_update, update_process_execution,
}
use xdb.Process.Decision.{abort_if, nothing_pending}
use xdb.Process.Common.{add_visibility_task_record_process_execution_status}
use xdb.Process.Stop.{
  stop_status, stopped_row, stop_info, exists_answer, StopProcessRequest, StopProcessResponse,
  stop_process, do_stop_process_tx, stop_found, stop_running,
}
use xdb.Process.Retries.{
  BackoffImmediateTaskRequest, RecoverFromStateExecutionFailureRequest, backoff_immediate_task,
  recover_from_state_execution_failure, do_backoff_immediate_task_tx,
  do_recover_from_state_execution_failure_tx,
}
use xdb.Process.WaitUntil.{
  ProcessWaitUntilExecutionRequest, process_wait_until_execution,
  do_process_wait_until_execution_tx,
}
use xdb.Process.Execute.{
  CompleteExecuteExecutionResponse, CompleteExecuteExecutionRequest, complete_execute_execution,
  do_complete_execute_execution_tx, execute_rolls_back,
}
use xdb.Process.LocalQueue.{
  ProcessLocalQueueMessagesRequest, process_local_queue_messages,
  do_process_local_queue_messages_tx,
}
use xdb.Engine.Actions.Atomic.{KeepsOnError}
use xdb.Engine.WorkerCalls.{ProcessorEnv}
use xdb.Engine.TaskLoop.Frames.{run_tx-rolls_back, run_tx-same}

if-Answers :
    (P : StopProcessResponse → Type 0) (b : Bool) (m n : Tx StopProcessResponse)
    → Answers P m
    → Answers P n
    → Answers P (if b then m else n)
if-Answers P true m n h k = h
if-Answers P false m n h k = k

abbrev Exists : StopProcessResponse → Type 0
Exists resp = resp.not_exists ≡ false

stop_running-Exists :
    (namespace process_id : GoString) (shard : ℕ) (status : ProcessExecutionStatus) (id : Uuid)
    (current : ProcessExecutionRow) (row : ProcessExecutionRowForUpdate)
    → Answers Exists (stop_running namespace process_id shard status id current row)
unfolding stop_running
stop_running-Exists namespace process_id shard status id current row =
    then-Answers Exists (update_process_execution (stopped_row status row)) _ (
      then-Answers Exists (abort_if (not (nothing_pending row.state_execution_sequence_maps)) id) _
        (bind-Answers Exists get_now _ (λ now.
          then-Answers Exists
            (add_visibility_task_record_process_execution_status shard
              (stop_info namespace process_id id current status now))
            _ (pure-Answers Exists exists_answer refl))))

stop_found-Exists :
    (namespace process_id : GoString) (shard : ℕ) (status : ProcessExecutionStatus)
    (found : Uuid × ProcessExecutionRow)
    → Answers Exists (stop_found namespace process_id shard status (some found))
unfolding stop_found
stop_found-Exists namespace process_id shard status (id, current) =
    bind-Answers Exists (select_process_execution_for_update id) _ (λ row.
      if-Answers Exists (is_running row.status) _ _
        (stop_running-Exists namespace process_id shard status id current row)
        (pure-Answers Exists exists_answer refl))

stop_found-same :
    (namespace process_id : GoString) (shard : ℕ) (status : ProcessExecutionStatus)
    (latest : Option (Uuid × ProcessExecutionRow)) (e : Env) (db db' : Db)
    (resp : StopProcessResponse)
    → stop_found namespace process_id shard status latest e db ≡ ok (resp, db')
    → resp.not_exists ≡ true
    → db' ≡ db
unfolding stop_found
stop_found-same namespace process_id shard status none e db db' resp q t = cc q
stop_found-same namespace process_id shard status (some found) e db db' resp q t =
    absurd (cc (stop_found-Exists namespace process_id shard status found e db resp db' q, t))

-- A bind that succeeds, taken apart.
bind_ok_at {ℓ κ} :
    {A : Type ℓ} {B : Type κ} (m : Tx A) (f : A → Tx B) (e : Env) (db : Db) (b : B) (db' : Db)
    (r : Result (A × Db))
    → m e db ≡ r
    → (Tx.◌>>=◌ m f) e db ≡ ok (b, db')
    → (a : A) × (db1 : Db) × (m e db ≡ ok (a, db1)) × (f a e db1 ≡ ok (b, db'))
bind_ok_at m f e db b db' (err x) p q = absurd (cc (p, q))
bind_ok_at m f e db b db' (ok (a, db1)) p q = (a, db1, p, cc (p, q))

session_same :
    {A : Type 0} (s : Result A) (db db1 : Db) (a : A)
    → ◌≡◌ {A = Result (A × Db)} (elim s [ ok r ↦ ok (r, db) | err x ↦ err x ]) (ok (a, db1))
    → db1 ≡ db
session_same (ok r) db db1 a q = cc q
session_same (err x) db db1 a q = absurd (cc q)

stop_tx-same :
    (r : StopProcessRequest) (e : Env) (db db' : Db) (resp : StopProcessResponse)
    → do_stop_process_tx r.namespace r.process_id r.new_task_shard_id
        (stop_status r.process_stop_type)
        e
        db
      ≡ ok (resp, db')
    → resp.not_exists ≡ true
    → db' ≡ db
unfolding do_stop_process_tx latest_in_session
stop_tx-same r e db db' resp q t =
    let key : GoString × GoString = (r.namespace, r.process_id) in
    let (latest, db1, read, rest) =
      bind_ok_at (latest_in_session key)
        (stop_found r.namespace r.process_id r.new_task_shard_id (stop_status r.process_stop_type))
        e db resp db' (latest_in_session key e db) refl q in
    stop_found-same r.namespace r.process_id r.new_task_shard_id (stop_status r.process_stop_type)
      latest e db1 db' resp rest t
    ∙ session_same (or_missing (select_latest_process_execution e.committed key)) db db1 latest read

module _ (env : ProcessorEnv) where
  pub stop_process-not_exists :
      (r : StopProcessRequest) (db : Db) (resp : StopProcessResponse)
      → (stop_process env.connection r (env.clock 3) env.app_answer db).0 ≡ ok resp
      → resp.not_exists ≡ true
      → (stop_process env.connection r (env.clock 3) env.app_answer db).1 ≡ db
  unfolding stop_process
  stop_process-not_exists r db resp e t =
      run_tx-same env.connection
        (do_stop_process_tx r.namespace r.process_id r.new_task_shard_id
          (stop_status r.process_stop_type))
        (env.clock 3) env.app_answer db resp (λ e' db' q. stop_tx-same r e' db db' resp q t) e

  pub backoff-KeepsOnError :
      (r : BackoffImmediateTaskRequest)
      → KeepsOnError (backoff_immediate_task env.connection r (env.clock 3) env.app_answer)
  unfolding backoff_immediate_task
  backoff-KeepsOnError r db x e =
      run_tx_err env.connection always_commits (do_backoff_immediate_task_tx r) (env.clock 3)
        env.app_answer db x e

  pub recover-KeepsOnError :
      (r : RecoverFromStateExecutionFailureRequest)
      → KeepsOnError
          (recover_from_state_execution_failure env.connection r (env.clock 3) env.app_answer)
  unfolding recover_from_state_execution_failure
  recover-KeepsOnError r db x e =
      run_tx_err env.connection always_commits (do_recover_from_state_execution_failure_tx r)
        (env.clock 3) env.app_answer db x e

  pub wait_until-KeepsOnError :
      (r : ProcessWaitUntilExecutionRequest)
      → KeepsOnError
          (process_wait_until_execution env.connection env.drawn r (env.clock 3) env.app_answer)
  unfolding process_wait_until_execution
  wait_until-KeepsOnError r db x e =
      run_tx_err env.connection always_commits (do_process_wait_until_execution_tx env.drawn r)
        (env.clock 3) env.app_answer db x e

  pub execute-KeepsOnError :
      (r : CompleteExecuteExecutionRequest)
      → KeepsOnError
          (complete_execute_execution env.connection env.drawn r (env.clock 3) env.app_answer)
  unfolding complete_execute_execution
  execute-KeepsOnError r db x e =
      run_tx_err env.connection execute_rolls_back (do_complete_execute_execution_tx env.drawn r)
        (env.clock 3) env.app_answer db x e

  pub messages-KeepsOnError :
      (r : ProcessLocalQueueMessagesRequest)
      → KeepsOnError (process_local_queue_messages env.connection r (env.clock 3) env.app_answer)
  unfolding process_local_queue_messages
  messages-KeepsOnError r db x e =
      run_tx_err env.connection always_commits (do_process_local_queue_messages_tx r) (env.clock 3)
        env.app_answer db x e

  pub stop-KeepsOnError :
      (r : StopProcessRequest)
      → KeepsOnError (stop_process env.connection r (env.clock 3) env.app_answer)
  unfolding stop_process
  stop-KeepsOnError r db x e =
      run_tx_err env.connection always_commits
        (do_stop_process_tx r.namespace r.process_id r.new_task_shard_id
          (stop_status r.process_stop_type))
        (env.clock 3) env.app_answer db x e

  -- Writes to the application's tables that fail roll the rest back.
  pub execute-rolls_back :
      (r : CompleteExecuteExecutionRequest) (db : Db) (resp : CompleteExecuteExecutionResponse)
      → (complete_execute_execution env.connection env.drawn r (env.clock 3) env.app_answer db).0
        ≡ ok resp
      → is_some resp.app_database_writing_error ≡ true
      → (complete_execute_execution env.connection env.drawn r (env.clock 3) env.app_answer db).1
        ≡ db
  unfolding complete_execute_execution
  execute-rolls_back r db resp e b =
      run_tx-rolls_back env.connection execute_rolls_back
        (do_complete_execute_execution_tx env.drawn r) (env.clock 3) env.app_answer db resp e b
