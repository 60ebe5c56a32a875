-- ===== src/Engine/TaskLoop/Atomic.antt =====
-- processImmediateTask of engine/immediate_task_concurrent_processor.go does all or nothing, but for
-- a visibility task, whose two statements are not in one transaction.
use xdb.Prelude.{[], Option, none, some, Error, Result, ok, err, ◌≡◌, ◌⊎◌, inl, inr, refl}
use xdb.DataModels.Enums.{StateExecutionStatus, ImmediateTaskType, visibility}
use xdb.DataModels.Infos.{VisibilityInfo}
use xdb.Database.Rows.{Db, ImmediateTaskRow}
use xdb.Database.Tx.{Done}
use xdb.Database.Visibility.{OnlyRecords, record_process_execution_status-OnlyRecords}
use xdb.Process.LocalQueue.{process_local_queue_messages}
use xdb.Process.Reads.{PrepareStateExecutionResponse, prepare_state_execution}
use xdb.Engine.Actions.{Action, Outcome, continue, call}
use xdb.Engine.Actions.Atomic.{IsAtomic, KeepsOnError, ask-IsAtomic, call-IsAtomic}
use xdb.Engine.TaskLoop.Store.{messages-KeepsOnError}
use xdb.Engine.WorkerCalls.{ProcessorEnv}
use xdb.Engine.ImmediateTasks.{key_of_task}
use xdb.Engine.TaskLoop.{
  messages_request, delete_if, record_visibility, process_visibility_task,
  process_local_queue_messages_task, by_status, process_worker_task, by_type,
  process_immediate_task,
}
use xdb.Engine.TaskLoop.Recovering.{notify_if-IsTotal, pure-IsAtomic}
use xdb.Engine.TaskLoop.Workers.{process_wait_until_task-IsAtomic, process_execute_task-IsAtomic}

module _ (env : ProcessorEnv) where
  by_status-IsAtomic :
      (task : ImmediateTaskRow) (prep : PrepareStateExecutionResponse)
      (status : StateExecutionStatus)
      → IsAtomic (by_status env task prep status)
  by_status-IsAtomic task prep StateExecutionStatus.wait_until_running =
      process_wait_until_task-IsAtomic env task prep
  by_status-IsAtomic task prep StateExecutionStatus.execute_running =
      process_execute_task-IsAtomic env task prep
  by_status-IsAtomic task prep StateExecutionStatus.wait_until_waiting = pure-IsAtomic
  by_status-IsAtomic task prep StateExecutionStatus.completed = pure-IsAtomic
  by_status-IsAtomic task prep StateExecutionStatus.failed = pure-IsAtomic
  by_status-IsAtomic task prep StateExecutionStatus.timeout = pure-IsAtomic
  by_status-IsAtomic task prep StateExecutionStatus.aborted = pure-IsAtomic

  process_worker_task-IsAtomic : (task : ImmediateTaskRow) → IsAtomic (process_worker_task env task)
  unfolding process_worker_task
  process_worker_task-IsAtomic task =
      ask-IsAtomic (prepare_state_execution (key_of_task task)) _
        (λ prep. by_status-IsAtomic task prep prep.status)

  delete_if-KeepsOnError :
      (r : Result Done) (task : ImmediateTaskRow) → KeepsOnError (delete_if r task)
  delete_if-KeepsOnError (err y) task db x e = refl
  delete_if-KeepsOnError (ok _) task db x e = absurd (cc e)

  delete_if-IsAtomic :
      (r : Result Done) (task : ImmediateTaskRow) → IsAtomic (call (delete_if r task))
  delete_if-IsAtomic r task db x e = (delete_if-KeepsOnError r task db x e, refl)

  -- The deletion of a visibility task, after its status is recorded in `recorded`
  deleted-IsPutBack :
      (task : ImmediateTaskRow) (db : Db) (recorded : Result Done × Db) (deletes : Result Done)
      (x : Error)
      → OnlyRecords db recorded
      → let o =
          continue
            (record { result = recorded.0; tables = recorded.1; sent = [] })
            recorded.0
            (λ _. call (delete_if deletes task)) in
        o.result ≡ err x
        → ((o.tables ≡ db)
            ⊎ ((deletes ≡ err x) × (record o.tables { visibility = db.visibility } ≡ db)))
          × (o.sent ≡ [])
  deleted-IsPutBack task db (err y, db') deletes x only e = (inl (only.on_error y refl), refl)
  deleted-IsPutBack task db (ok _, db') (err y) x only e = (inr (e, only.others), refl)
  deleted-IsPutBack task db (ok _, db') (ok _) x only e = absurd (cc e)

  record_visibility-IsPutBack :
      (task : ImmediateTaskRow) (info : Option VisibilityInfo) (db : Db) (x : Error)
      → let o = record_visibility env task info db in
        o.result ≡ err x
        → ((o.tables ≡ db)
            ⊎ ((env.deletes_tasks ≡ err x) × (record o.tables { visibility = db.visibility } ≡ db)))
          × (o.sent ≡ [])
  record_visibility-IsPutBack task none db x e = (inl refl, refl)
  record_visibility-IsPutBack task (some info) db x e =
      deleted-IsPutBack task db _ env.deletes_tasks x
        (record_process_execution_status-OnlyRecords env.records_status task.process_execution_id
          info db)
        e

  process_local_queue_messages_task-IsAtomic :
      (task : ImmediateTaskRow) → IsAtomic (process_local_queue_messages_task env task)
  unfolding process_local_queue_messages_task
  process_local_queue_messages_task-IsAtomic task =
      call-IsAtomic
        (process_local_queue_messages env.connection (messages_request task) (env.clock 3)
          env.app_answer)
        _ (messages-KeepsOnError env (messages_request task))
        (λ resp. notify_if-IsTotal resp.has_new_immediate_task _)

  -- Of a task that is put back: no table has changed, unless it is a visibility task that could not
  -- be deleted, and then only the visibility table has.
  abbrev pub IsPutBack : ImmediateTaskType → Db → Error → Outcome Done → Type 0
  IsPutBack type db x o =
      ((o.tables ≡ db)
        ⊎ ((type ≡ visibility)
            × (env.deletes_tasks ≡ err x)
            × (record o.tables { visibility = db.visibility } ≡ db)))
      × (o.sent ≡ [])

  atomic-IsPutBack :
      (type : ImmediateTaskType) (m : Action Done) (db : Db) (x : Error)
      → IsAtomic m
      → (m db).result ≡ err x
      → IsPutBack type db x (m db)
  atomic-IsPutBack type m db x h e = let (same, silent) = h db x e in (inl same, silent)

  by_type-IsPutBack :
      (task : ImmediateTaskRow) (type : ImmediateTaskType) (db : Db) (x : Error)
      → (by_type env task type db).result ≡ err x
      → IsPutBack type db x (by_type env task type db)
  unfolding process_visibility_task
  by_type-IsPutBack task ImmediateTaskType.new_local_queue_messages db x e =
      atomic-IsPutBack _ _ db x (process_local_queue_messages_task-IsAtomic task) e
  by_type-IsPutBack task ImmediateTaskType.visibility db x e =
      let (tables, silent) = record_visibility-IsPutBack task task.info.visibility_info db x e in
      (
        elim tables [ inl same ↦ inl same | inr (fails, others) ↦ inr (refl, fails, others) ],
        silent,
      )
  by_type-IsPutBack task ImmediateTaskType.wait_until db x e =
      atomic-IsPutBack _ _ db x (process_worker_task-IsAtomic task) e
  by_type-IsPutBack task ImmediateTaskType.execute db x e =
      atomic-IsPutBack _ _ db x (process_worker_task-IsAtomic task) e

  -- Whatever the worker and the database answer, a task whose processing ends in an error, and which
  -- is put back for that, has notified nobody. It has changed no table, but for a visibility task whose
  -- error is that of its deletion: that has changed the visibility table at most.
  pub process_immediate_task-err :
      (task : ImmediateTaskRow) (db : Db) (x : Error)
      → let o = process_immediate_task env task db in
        o.result ≡ err x
        → ((o.tables ≡ db)
            ⊎ ((task.task_type ≡ visibility)
                × (env.deletes_tasks ≡ err x)
                × (record o.tables { visibility = db.visibility } ≡ db)))
          × (o.sent ≡ [])
  unfolding process_immediate_task
  process_immediate_task-err task db x e = by_type-IsPutBack task task.task_type db x e
