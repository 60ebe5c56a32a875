-- ===== src/Engine/TimerTasks.antt =====
-- engine/timer_task_concurrent_processor.go: what is done with a timer task. The tasks that the store
-- reads have no partition key.
use xdb.Prelude.{none, panic, if◌then◌else◌}
use xdb.DataModels.Enums.{TimerTaskType, process_timeout, timer_command, worker_task_backoff}
use xdb.Database.Rows.{TimerTaskRow}
use xdb.Database.Tx.{Done}
use xdb.Process.Timers.{
  process_timer_task_for_process_timeout, process_timer_task_for_timer_command,
  convert_timer_task_to_immediate_task,
}
use xdb.Engine.Actions.{
  Action, Notification, new_immediate_tasks, ◌>>=◌, ◌>>◌, pure, raise, call, notify,
}
use xdb.Engine.WorkerCalls.{ProcessorEnv}
use xdb.Engine.ImmediateTasks.{notify_if}

abbrev pub new_task_of_timer : TimerTaskRow → Notification
new_task_of_timer task = new_immediate_tasks task.shard_id none task.process_execution_id

-- processTimerTaskProcessTimeout
unfoldable pub process_timer_task_process_timeout : ProcessorEnv → TimerTaskRow → Action Done
unfolding process_timer_task_for_process_timeout
process_timer_task_process_timeout env task = do
  resp ←
      call (process_timer_task_for_process_timeout env.connection task (env.clock 3) env.app_answer)
  if resp.has_new_immediate_task then raise panic else pure tt

-- processTimerTaskWorkerTaskBackoff
unfoldable pub process_timer_task_worker_task_backoff : ProcessorEnv → TimerTaskRow → Action Done
unfolding convert_timer_task_to_immediate_task
process_timer_task_worker_task_backoff env task = do
  call (convert_timer_task_to_immediate_task env.connection task (env.clock 3) env.app_answer)
  notify (new_task_of_timer task)

-- processTimerTaskForTimerCommand
unfoldable pub process_timer_task_timer_command : ProcessorEnv → TimerTaskRow → Action Done
unfolding process_timer_task_for_timer_command
process_timer_task_timer_command env task = do
  resp ←
      call (process_timer_task_for_timer_command env.connection task (env.clock 3) env.app_answer)
  notify_if resp.has_new_immediate_task (new_task_of_timer task)

abbrev pub by_timer_type : ProcessorEnv → TimerTaskRow → TimerTaskType → Action Done
by_timer_type env task worker_task_backoff = process_timer_task_worker_task_backoff env task
by_timer_type env task process_timeout = process_timer_task_process_timeout env task
by_timer_type env task timer_command = process_timer_task_timer_command env task

-- processTimerTask
unfoldable pub process_timer_task : ProcessorEnv → TimerTaskRow → Action Done
unfolding process_timer_task_process_timeout process_timer_task_worker_task_backoff
    process_timer_task_timer_command
process_timer_task env task = by_timer_type env task task.task_type
