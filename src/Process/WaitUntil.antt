-- ===== src/Process/WaitUntil.antt =====
-- persistence/process/wait_until.go.
pub mod Waiting
use xdb.Prelude.{
  ℕ, suc, ◌+◌, Bool, true, false, not, ◌&&◌, ◌||◌, List, [], ◌∷◌, Option, none, some, Result, GoMap,
  nat_key, string_key, pair_key,
}
use xdb.Prelude.Maps.{is_empty}
use xdb.DataModels.Enums.{wait_until_waiting, execute_running, execute, timer_command}
use xdb.DataModels.LocalQueues.{
  StateExecutionLocalQueues, InternalLocalQueueMessage, CommandWaitingType, empty_command,
  new_state_execution_local_queues, add_new_local_queue_commands, try_consume_for_state_execution,
}
use xdb.DataModels.Infos.{CommandRequest, TimerCommand, delay_in_seconds, no_timer_info}
use xdb.Database.Rows.{Db, StateKey, ProcessExecutionRowForUpdate, AsyncStateExecutionRowForUpdate}
use xdb.Database.Tx.{
  Tx, Done, ◌>>=◌, ◌>>◌, pure, lift, get_now, Connection, AppAnswer, run_tx, always_commits,
}
use xdb.DataModels.StateIds.{get_state_execution_id}
use xdb.Database.Statements.{
  select_process_execution_for_update, update_process_execution,
  select_async_state_execution_for_update, update_async_state_execution,
  update_async_state_execution_without_commands,
}
use xdb.Database.Tasks.{insert_immediate_task_row, insert_timer_task, delete_immediate_task}
use xdb.Process.Common.{
  state_task, queue_key, all_messages, get_dedup_id_to_local_queue_message_map,
  update_command_results_with_newly_consumed_local_queue_messages, has_completed_wait_until_waiting,
}
use xdb.Process.Timers.{complete_if}
use xdb.Process.Publish.{LocalQueueMessage, publish_to_local_queue}

-- ProcessWaitUntilExecutionRequest, with the version of Prepare, and its response
pub record ProcessWaitUntilExecutionRequest : Type 0 where
  pub key : StateKey
  pub previous_version : ℕ
  pub command_request : CommandRequest
  pub publish : List LocalQueueMessage
  pub task_shard_id : ℕ
  pub task_sequence : ℕ

pub record ProcessWaitUntilExecutionResponse : Type 0 where
  pub has_new_immediate_task : Bool
  pub fire_timestamps : List ℕ

-- completeWaitUntilExecution
unfoldable pub complete_wait_until_execution : ℕ → StateKey → ℕ → Tx Done
unfolding update_async_state_execution_without_commands insert_immediate_task_row
complete_wait_until_execution shard key version = do
  update_async_state_execution_without_commands (record {
    key = key;
    status = execute_running;
    last_failure = none;
    previous_version = version;
  })
  insert_immediate_task_row (state_task shard execute key)

-- The queues with the new commands, and what the state execution consumes of them.
abbrev pub consume_new :
    ProcessWaitUntilExecutionRequest
    → StateExecutionLocalQueues
    → StateExecutionLocalQueues × GoMap ℕ (List InternalLocalQueueMessage)
consume_new r queues =
    try_consume_for_state_execution
      (add_new_local_queue_commands queues (queue_key r.key) r.command_request.local_queue_commands)
      (queue_key r.key) r.command_request.waiting_type

-- Step 1: without queue commands the process execution is not read.
unfoldable pub read_queues :
    ProcessWaitUntilExecutionRequest
    → Bool
    → Tx (
        Option ProcessExecutionRowForUpdate
        × (StateExecutionLocalQueues × GoMap ℕ (List InternalLocalQueueMessage)))
unfolding select_process_execution_for_update get_state_execution_id add_new_local_queue_commands
    try_consume_for_state_execution
read_queues r false = pure (none, (new_state_execution_local_queues, []))
read_queues r true = do
  row ← select_process_execution_for_update r.key.0
  pure (some row, consume_new r row.state_execution_local_queues)

-- Step 2 - 2, a timer task for each timer command
unfoldable pub insert_timers :
    ProcessWaitUntilExecutionRequest → List TimerCommand → ℕ → Tx (List ℕ)
unfolding insert_timer_task
insert_timers r [] i = pure []
insert_timers r (c ∷ cs) i = do
  now ← get_now
  insert_timer_task (record {
    shard_id = r.task_shard_id;
    fire_time_unix_seconds = now + delay_in_seconds c;
    task_type = timer_command;
    process_execution_id = r.key.0;
    state_id = r.key.1.0;
    state_id_sequence = r.key.1.1;
    info = record no_timer_info { timer_command_index = i };
  })
  rest ← insert_timers r cs (suc i)
  pure ((now + delay_in_seconds c) ∷ rest)

-- Step 3
unfoldable pub write_queues :
    Option ProcessExecutionRowForUpdate → StateExecutionLocalQueues → Tx Done
unfolding update_process_execution
write_queues none queues = pure tt
write_queues (some row) queues =
    update_process_execution (record row { state_execution_local_queues = queues })

abbrev pub waiting_row :
    CommandRequest → AsyncStateExecutionRowForUpdate → AsyncStateExecutionRowForUpdate
waiting_row c row = record row {
  status = wait_until_waiting;
  last_failure = none;
  wait_until_commands = c;
}

-- updateWaitUntilExecution
unfoldable pub update_wait_until_execution :
    ProcessWaitUntilExecutionRequest → Tx ProcessWaitUntilExecutionResponse
unfolding read_queues select_async_state_execution_for_update
    get_dedup_id_to_local_queue_message_map
    update_command_results_with_newly_consumed_local_queue_messages has_completed_wait_until_waiting
    complete_if update_async_state_execution insert_timers write_queues
update_wait_until_execution r = do
  let has_commands = not (is_empty r.command_request.local_queue_commands)
  read ← read_queues r has_commands
  row ← select_async_state_execution_for_update r.key
  rows ← get_dedup_id_to_local_queue_message_map r.key.0 (all_messages read.1.1)
  results ← lift (
      update_command_results_with_newly_consumed_local_queue_messages row.wait_until_command_results
        read.1.1 rows)
  let completed = has_commands && has_completed_wait_until_waiting r.command_request results
  changed ← complete_if completed r.task_shard_id read.1.0 (waiting_row r.command_request row)
  update_async_state_execution (record changed.1 { wait_until_command_results = results })
  fires ← insert_timers r r.command_request.timer_commands 0
  write_queues read.0 changed.0
  pure (record { has_new_immediate_task = completed; fire_timestamps = fires })

unfoldable pub wait_or_complete :
    ProcessWaitUntilExecutionRequest → CommandWaitingType → Tx ProcessWaitUntilExecutionResponse
unfolding complete_wait_until_execution update_wait_until_execution
wait_or_complete r empty_command = do
  complete_wait_until_execution r.task_shard_id r.key r.previous_version
  pure (record { has_new_immediate_task = true; fire_timestamps = [] })
wait_or_complete r _ = update_wait_until_execution r

-- doProcessWaitUntilExecutionTx; `drawn` are the UUIDs for the published messages
unfoldable pub do_process_wait_until_execution_tx :
    (ℕ → ℕ) → ProcessWaitUntilExecutionRequest → Tx ProcessWaitUntilExecutionResponse
unfolding wait_or_complete publish_to_local_queue delete_immediate_task
do_process_wait_until_execution_tx drawn r = do
  resp ← wait_or_complete r r.command_request.waiting_type
  published ← publish_to_local_queue drawn r.key.0 r.task_shard_id r.publish
  delete_immediate_task r.task_shard_id r.task_sequence
  pure (record resp { has_new_immediate_task = resp.has_new_immediate_task || published })

-- ProcessWaitUntilExecution
unfoldable pub process_wait_until_execution :
    Connection
    → (ℕ → ℕ)
    → ProcessWaitUntilExecutionRequest
    → ℕ
    → AppAnswer
    → Db
    → Result ProcessWaitUntilExecutionResponse × Db
unfolding run_tx do_process_wait_until_execution_tx
process_wait_until_execution c drawn r =
    run_tx c always_commits (do_process_wait_until_execution_tx drawn r)
