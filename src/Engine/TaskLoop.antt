-- ===== src/Engine/TaskLoop.antt =====
-- engine/immediate_task_concurrent_processor.go: processImmediateTask, the tasks that call no worker,
-- and what the loop in Start does with a task that it takes.
pub mod Crashing
pub mod Failing
pub mod Deferring
pub mod Retrying
pub mod Frames
pub mod Store
pub mod Recovering
pub mod Workers
pub mod Atomic
use xdb.Prelude.{
  ℕ, ◌+◌, ◌%◌, ◌^◌, Bool, true, false, List, [], Option, none, some, Error, Result, ok, err,
  if◌then◌else◌, panic, missing_visibility_info,
}
use xdb.DataModels.Enums.{
  StateExecutionStatus, wait_until_running, execute_running, ImmediateTaskType, wait_until, execute,
  new_local_queue_messages, visibility,
}
use xdb.DataModels.Infos.{Uuid, WorkerTaskBackoffInfo, VisibilityInfo}
use xdb.Database.Rows.{Db, ImmediateTaskRow}
use xdb.Database.Tx.{Done}
use xdb.Database.Visibility.{record_process_execution_status}
use xdb.Process.LocalQueue.{ProcessLocalQueueMessagesRequest, process_local_queue_messages}
use xdb.Process.Reads.{
  PrepareStateExecutionResponse, prepare_state_execution, delete_immediate_tasks,
}
use xdb.Engine.Actions.{
  Action, Outcome, Notification, new_immediate_tasks, ◌>>=◌, ◌>>◌, pure, lift, raise, call, ask,
}
use xdb.Engine.WorkerCalls.{ProcessorEnv, begin_attempt}
use xdb.Engine.ImmediateTasks.{notify_if, key_of_task, with_backoff}
use xdb.Engine.WaitUntilTasks.{process_wait_until_task}
use xdb.Engine.ExecuteTasks.{process_execute_task}

abbrev pub delete_if : Result Done → ImmediateTaskRow → Db → Result Done × Db
delete_if (err x) task db = (err x, db)
delete_if (ok _) task db =
    (ok tt, delete_immediate_tasks task.shard_id task.task_sequence task.task_sequence db)

-- processVisibilityTask
abbrev pub record_visibility : ProcessorEnv → ImmediateTaskRow → Option VisibilityInfo → Action Done
record_visibility env task none = raise missing_visibility_info
record_visibility env task (some info) = do
  call (record_process_execution_status env.records_status task.process_execution_id info)
  call (delete_if env.deletes_tasks task)

unfoldable pub process_visibility_task : ProcessorEnv → ImmediateTaskRow → Action Done
unfolding record_process_execution_status delete_immediate_tasks
process_visibility_task env task = record_visibility env task task.info.visibility_info

abbrev pub messages_request : ImmediateTaskRow → ProcessLocalQueueMessagesRequest
messages_request task = record {
  task_shard_id = task.shard_id;
  task_sequence = task.task_sequence;
  process_execution_id = task.process_execution_id;
  messages = task.info.local_queue_message_info;
}

-- processLocalQueueMessagesTask
unfoldable pub process_local_queue_messages_task : ProcessorEnv → ImmediateTaskRow → Action Done
unfolding process_local_queue_messages
process_local_queue_messages_task env task = do
  resp ← call (
      process_local_queue_messages env.connection (messages_request task) (env.clock 3)
        env.app_answer)
  notify_if resp.has_new_immediate_task
      (new_immediate_tasks task.shard_id none task.process_execution_id)

abbrev pub by_status :
    ProcessorEnv
    → ImmediateTaskRow
    → PrepareStateExecutionResponse
    → StateExecutionStatus
    → Action Done
by_status env task prep wait_until_running = process_wait_until_task env task prep
by_status env task prep execute_running = process_execute_task env task prep
by_status env task prep _ = pure tt

unfoldable pub process_worker_task : ProcessorEnv → ImmediateTaskRow → Action Done
unfolding prepare_state_execution process_wait_until_task process_execute_task
process_worker_task env task = do
  prep ← ask (prepare_state_execution (key_of_task task))
  by_status env task prep prep.status

abbrev pub by_type : ProcessorEnv → ImmediateTaskRow → ImmediateTaskType → Action Done
by_type env task new_local_queue_messages = process_local_queue_messages_task env task
by_type env task visibility = process_visibility_task env task
by_type env task wait_until = process_worker_task env task
by_type env task execute = process_worker_task env task

-- processImmediateTask
unfoldable pub process_immediate_task : ProcessorEnv → ImmediateTaskRow → Action Done
unfolding process_local_queue_messages_task process_visibility_task process_worker_task
process_immediate_task env task = by_type env task task.task_type

-- What becomes of a task that the loop takes: its shard has moved, before or while it is processed;
-- it goes to the channel for commits; it is put back, with the attempt counted where it came with
-- back-off info; or the process dies of a panic.
pub data Fate : Type 0 where
  skipped dropped committed put_back crashed : Fate

abbrev pub fate_of : Result Done → Bool → Fate
fate_of (err panic) registered = crashed
fate_of (err _) registered = if registered then put_back else dropped
fate_of (ok _) registered = if registered then committed else dropped

-- The loop in Start, with the shard registered or not before and after
unfoldable pub take_task :
    ProcessorEnv → Bool → Bool → ImmediateTaskRow → Db → Fate × Db × List Notification
unfolding process_immediate_task
take_task env before after task db =
    let o = process_immediate_task env task db in
    if before then (fate_of o.result after, o.tables, o.sent) else (skipped, db, [])
