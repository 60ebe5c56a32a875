-- ===== src/Process/LocalQueue.antt =====
-- persistence/process/process_local_queue.go.
use xdb.Prelude.{
  ℕ, Bool, false, ◌||◌, List, [], ◌∷◌, ◌++◌, Option, none, some, Result, GoMap, GoString, nat_key,
  string_key, pair_key,
}
use xdb.Prelude.Maps.{or_empty, get, set}
use xdb.DataModels.StateIds.{new_state_execution_id_from_string}
use xdb.DataModels.LocalQueues.{
  StateExecutionLocalQueues, LocalQueueMessageInfo, InternalLocalQueueMessage,
  add_message_and_try_consume,
}
use xdb.DataModels.Infos.{Uuid}
use xdb.Database.Rows.{Db, LocalQueueMessageRow}
use xdb.Database.Tx.{Tx, ◌>>=◌, ◌>>◌, pure, lift, Connection, AppAnswer, run_tx, always_commits}
use xdb.Database.Statements.{
  select_process_execution_for_update, update_process_execution,
  select_async_state_execution_for_update, update_async_state_execution,
}
use xdb.Database.Tasks.{delete_immediate_task}
use xdb.Process.Common.{
  all_messages, get_dedup_id_to_local_queue_message_map,
  update_command_results_with_newly_consumed_local_queue_messages, has_completed_wait_until_waiting,
}
use xdb.Process.Timers.{complete_if}

-- ProcessLocalQueueMessagesRequest and its response
pub record ProcessLocalQueueMessagesRequest : Type 0 where
  pub task_shard_id : ℕ
  pub task_sequence : ℕ
  pub process_execution_id : Uuid
  pub messages : List LocalQueueMessageInfo

pub record ProcessLocalQueueMessagesResponse : Type 0 where
  pub has_new_immediate_task : Bool

-- assignedStateExecutionIdToMessagesMap
abbrev pub Assigned : Type 0
Assigned = GoMap GoString (GoMap ℕ (List InternalLocalQueueMessage))

abbrev pub assign : Assigned → Option (GoString × ℕ × List InternalLocalQueueMessage) → Assigned
assign a none = a
assign a (some (key, i, ms)) = set a key (set (or_empty (get a key)) i ms)

-- The loop of step 1 over the new messages
unfoldable pub add_new_messages :
    List LocalQueueMessageInfo
    → StateExecutionLocalQueues × Assigned
    → StateExecutionLocalQueues × Assigned
unfolding add_message_and_try_consume
add_new_messages [] (queues, a) = (queues, a)
add_new_messages (m ∷ ms) (queues, a) =
    let r = add_message_and_try_consume queues m in add_new_messages ms (r.0, assign a r.1)

unfoldable pub all_assigned : Assigned → List InternalLocalQueueMessage
all_assigned [] = []
all_assigned ((_, m) ∷ a) = all_messages m ++ all_assigned a

-- The body of the loop of step 2: the queues, and whether the state execution goes on.
unfoldable pub update_assigned :
    ProcessLocalQueueMessagesRequest
    → GoMap Uuid LocalQueueMessageRow
    → GoString
    → GoMap ℕ (List InternalLocalQueueMessage)
    → StateExecutionLocalQueues
    → Tx (StateExecutionLocalQueues × Bool)
unfolding new_state_execution_id_from_string select_async_state_execution_for_update
    update_command_results_with_newly_consumed_local_queue_messages has_completed_wait_until_waiting
    complete_if update_async_state_execution
update_assigned r rows key m queues = do
  id ← lift (new_state_execution_id_from_string key)
  row ←
      select_async_state_execution_for_update
        (r.process_execution_id, (id.state_id, id.state_id_sequence))
  results ← lift (
      update_command_results_with_newly_consumed_local_queue_messages row.wait_until_command_results
        m rows)
  let completed = has_completed_wait_until_waiting row.wait_until_commands results
  changed ← complete_if completed r.task_shard_id queues (record row { last_failure = none })
  update_async_state_execution (record changed.1 { wait_until_command_results = results })
  pure (changed.0, completed)

unfoldable pub update_all_assigned :
    ProcessLocalQueueMessagesRequest
    → GoMap Uuid LocalQueueMessageRow
    → Assigned
    → StateExecutionLocalQueues
    → Bool
    → Tx (StateExecutionLocalQueues × Bool)
unfolding update_assigned
update_all_assigned r rows [] queues has_new = pure (queues, has_new)
update_all_assigned r rows ((key, m) ∷ a) queues has_new = do
  changed ← update_assigned r rows key m queues
  update_all_assigned r rows a changed.0 (has_new || changed.1)

-- doProcessLocalQueueMessagesTx
unfoldable pub do_process_local_queue_messages_tx :
    ProcessLocalQueueMessagesRequest → Tx ProcessLocalQueueMessagesResponse
unfolding select_process_execution_for_update add_new_messages all_assigned
    get_dedup_id_to_local_queue_message_map update_all_assigned update_process_execution
    delete_immediate_task
do_process_local_queue_messages_tx r = do
  process ← select_process_execution_for_update r.process_execution_id
  let added = add_new_messages r.messages (process.state_execution_local_queues, [])
  rows ← get_dedup_id_to_local_queue_message_map r.process_execution_id (all_assigned added.1)
  changed ← update_all_assigned r rows added.1 added.0 false
  update_process_execution (record process { state_execution_local_queues = changed.0 })
  delete_immediate_task r.task_shard_id r.task_sequence
  pure (record { has_new_immediate_task = changed.1 })

-- ProcessLocalQueueMessages
unfoldable pub process_local_queue_messages :
    Connection
    → ProcessLocalQueueMessagesRequest
    → ℕ
    → AppAnswer
    → Db
    → Result ProcessLocalQueueMessagesResponse × Db
unfolding run_tx do_process_local_queue_messages_tx
process_local_queue_messages c r = run_tx c always_commits (do_process_local_queue_messages_tx r)
