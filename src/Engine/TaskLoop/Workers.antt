-- ===== src/Engine/TaskLoop/Workers.antt =====
-- engine/immediate_task_concurrent_processor.go: the tasks that call a worker do all or nothing.
use xdb.Prelude.{
  ℕ, true, not, ◌&&◌, List, Error, Result, ok, err, ◌≡◌, refl, is_some, Bool-cases, inl, inr,
  GoString,
}
use xdb.DataModels.Infos.{Columns, WorkerTaskBackoffInfo, wait_until_api, execute_api}
use xdb.Database.Rows.{Db, ImmediateTaskRow}
use xdb.Database.Tx.{Done}
use xdb.Prelude.Maps.{is_empty}
use xdb.Process.AppDatabase.{KeyValue}
use xdb.Process.WaitUntil.{process_wait_until_execution}
use xdb.Process.Execute.{CompleteExecuteExecutionResponse, complete_execute_execution}
use xdb.Process.Reads.{PrepareStateExecutionResponse}
use xdb.Engine.Actions.{Action, ◌>>◌, process_ended}
use xdb.Engine.Actions.Atomic.{
  Nothing, IsAtomic, lift-IsAtomic, call-IsAtomic, call_checked-IsAtomic, total-no_error,
}
use xdb.Engine.TaskLoop.Store.{wait_until-KeepsOnError, execute-KeepsOnError, execute-rolls_back}
use xdb.Engine.WorkerCalls.{
  ProcessorEnv, begin_attempt, HttpAnswer, WaitUntilAnswer, ExecuteAnswer,
  create_context_with_timeout, check_http_response_and_error,
}
use xdb.Engine.ImmediateTasks.{new_task_of, failed_attempt, with_backoff, notify_if}
use xdb.Engine.WaitUntilTasks.{
  wait_until_request, complete_wait_until, wait_until_answered, wait_until_call,
  process_wait_until_task,
}
use xdb.Engine.ExecuteTasks.{
  read_app_database_if_needed, load_local_attributes_if_needed, has_ended, execute_request,
  completed, complete_execute, or_failed, execute_answered, error_or_invalid, execute_call,
  execute_with_attributes, execute_with_tables, process_execute_task,
}
use xdb.Engine.TaskLoop.Recovering.{two-IsTotal, if-IsAtomic, retry_or_recover-IsAtomic}

module _ (env : ProcessorEnv) where
  complete_wait_until-IsAtomic :
      (task : ImmediateTaskRow) (prep : PrepareStateExecutionResponse) (answer : WaitUntilAnswer)
      → IsAtomic (complete_wait_until env task prep answer)
  unfolding complete_wait_until
  complete_wait_until-IsAtomic task prep answer =
      call-IsAtomic
        (process_wait_until_execution env.connection env.drawn (wait_until_request task prep answer)
          (env.clock 3) env.app_answer)
        _ (wait_until-KeepsOnError env (wait_until_request task prep answer))
        (λ resp. two-IsTotal resp.has_new_immediate_task (not (is_empty resp.fire_timestamps)) _ _)

  wait_until_answered-IsAtomic :
      (task : ImmediateTaskRow) (backoff : WorkerTaskBackoffInfo)
      (prep : PrepareStateExecutionResponse) (a : HttpAnswer WaitUntilAnswer)
      → IsAtomic (wait_until_answered env task backoff prep a)
  unfolding wait_until_answered
  wait_until_answered-IsAtomic task backoff prep a =
      if-IsAtomic (check_http_response_and_error a.error a.response) _ _
        (retry_or_recover-IsAtomic env
          (failed_attempt env task backoff prep wait_until_api a.error a.response))
        (complete_wait_until-IsAtomic task prep a.answer)

  pub process_wait_until_task-IsAtomic :
      (task : ImmediateTaskRow) (prep : PrepareStateExecutionResponse)
      → IsAtomic (process_wait_until_task env task prep)
  unfolding process_wait_until_task
  process_wait_until_task-IsAtomic task prep =
      let backoff = begin_attempt (env.clock 0) task.info.worker_task_backoff_info in
      let counted = with_backoff task backoff in
      lift-IsAtomic
        (create_context_with_timeout env.default_async_state_api_timeout
          env.max_async_state_api_timeout task.task_type prep.info.state_config)
        _
        (λ timeout.
          wait_until_answered-IsAtomic counted backoff prep
            (env.call_wait_until (wait_until_call env counted backoff prep timeout)))

  completed-checked :
      (task : ImmediateTaskRow) (prep : PrepareStateExecutionResponse)
      (resp : CompleteExecuteExecutionResponse) (db : Db) (x : Error)
      → (completed env task prep resp db).result ≡ err x
      → (is_some resp.app_database_writing_error ≡ true)
        × Nothing (completed env task prep resp db) db
  unfolding completed
  completed-checked task prep resp db x e =
      elim (Bool-cases (is_some resp.app_database_writing_error)) [
        | inl failed ↦ (failed, rw failed (refl, refl))
        | inr done ↦ absurd (
            total-no_error
              (notify_if resp.has_new_immediate_task (new_task_of task prep)
                >> notify_if
                    (env.has_completion_channels task.shard_id && has_ended resp.process_status)
                    (process_ended task.shard_id task.process_execution_id resp.process_status))
              db x
              (two-IsTotal resp.has_new_immediate_task
                (env.has_completion_channels task.shard_id && has_ended resp.process_status)
                (new_task_of task prep)
                (process_ended task.shard_id task.process_execution_id resp.process_status))
              (rw done at e))
      ]

  complete_execute-IsAtomic :
      (task : ImmediateTaskRow) (prep : PrepareStateExecutionResponse) (answer : ExecuteAnswer)
      → IsAtomic (complete_execute env task prep answer)
  unfolding complete_execute
  complete_execute-IsAtomic task prep answer =
      call_checked-IsAtomic
        (complete_execute_execution env.connection env.drawn (execute_request task prep answer)
          (env.clock 3) env.app_answer)
        (completed env task prep) (execute-KeepsOnError env (execute_request task prep answer))
        (λ db resp x e q.
          let (failed, nothing) = completed-checked task prep resp _ x q in
          (execute-rolls_back env (execute_request task prep answer) db resp e failed, nothing))

  execute_answered-IsAtomic :
      (task : ImmediateTaskRow) (backoff : WorkerTaskBackoffInfo)
      (prep : PrepareStateExecutionResponse) (a : HttpAnswer ExecuteAnswer)
      → IsAtomic (execute_answered env task backoff prep a)
  unfolding execute_answered
  execute_answered-IsAtomic task backoff prep a =
      let error = error_or_invalid a.error a.answer.state_decision in
      if-IsAtomic (check_http_response_and_error error a.response) _ _
        (retry_or_recover-IsAtomic env
          (failed_attempt env task backoff prep execute_api error a.response))
        (complete_execute-IsAtomic task prep a.answer)

  or_failed-result :
      {A : Type 0} (task : ImmediateTaskRow) (backoff : WorkerTaskBackoffInfo)
      (prep : PrepareStateExecutionResponse) (r : Result A) (f : A → Action Done)
      → ((a : A) → IsAtomic (f a))
      → IsAtomic (or_failed env task backoff prep r f)
  or_failed-result task backoff prep (err x) f h = retry_or_recover-IsAtomic env _
  or_failed-result task backoff prep (ok a) f h = h a

  execute_with_attributes-IsAtomic :
      (task : ImmediateTaskRow) (backoff : WorkerTaskBackoffInfo)
      (prep : PrepareStateExecutionResponse) (timeout : ℕ) (tables : List (GoString × List Columns))
      (attributes : List KeyValue)
      → IsAtomic (execute_with_attributes env task backoff prep timeout tables attributes)
  unfolding execute_with_attributes
  execute_with_attributes-IsAtomic task backoff prep timeout tables attributes =
      execute_answered-IsAtomic task backoff prep
        (env.call_execute (execute_call env task backoff prep timeout tables attributes))

  execute_with_tables-IsAtomic :
      (task : ImmediateTaskRow) (backoff : WorkerTaskBackoffInfo)
      (prep : PrepareStateExecutionResponse) (timeout : ℕ) (tables : List (GoString × List Columns))
      → IsAtomic (execute_with_tables env task backoff prep timeout tables)
  unfolding execute_with_tables
  execute_with_tables-IsAtomic task backoff prep timeout tables db =
      or_failed-result task backoff prep
        (load_local_attributes_if_needed task.process_execution_id prep.info.state_config db)
        (execute_with_attributes env task backoff prep timeout tables)
        (execute_with_attributes-IsAtomic task backoff prep timeout tables) db

  pub process_execute_task-IsAtomic :
      (task : ImmediateTaskRow) (prep : PrepareStateExecutionResponse)
      → IsAtomic (process_execute_task env task prep)
  unfolding process_execute_task
  process_execute_task-IsAtomic task prep =
      let backoff = begin_attempt (env.clock 0) task.info.worker_task_backoff_info in
      let counted = with_backoff task backoff in
      lift-IsAtomic
        (create_context_with_timeout env.default_async_state_api_timeout
          env.max_async_state_api_timeout task.task_type prep.info.state_config)
        _
        (λ timeout.
          or_failed-result counted backoff prep (read_app_database_if_needed env prep)
            (execute_with_tables env counted backoff prep timeout)
            (execute_with_tables-IsAtomic counted backoff prep timeout))
