-- ===== src/Process/Common.antt =====
-- persistence/process/sql_process_store_common.go (the inserts and the command results) and
-- record_status.go.
use xdb.Prelude.{
  ℕ, ◌+◌, ◌-◌, ◌%◌, ◌^◌, Bool, true, List, [], ◌∷◌, ◌++◌, map, Option, none, some, Result, ok, err,
  panic, if◌then◌else◌, ltb, ◌==◌, length, GoMap, GoString, nat_key, string_key,
}
use xdb.Prelude.Maps.{get, set}
use xdb.DataModels.Enums.{
  StateExecutionStatus, wait_until_running, execute_running, ImmediateTaskType, wait_until, execute,
  visibility,
}
use xdb.DataModels.StateIds.{get_state_execution_id}
use xdb.DataModels.LocalQueues.{
  StateExecutionLocalQueues, InternalLocalQueueMessage, cleanup_for, CommandWaitingType,
  any_of_completion, all_of_completion, empty_command,
}
use xdb.DataModels.Infos.{
  Uuid, EncodedObject, AsyncStateConfig, get_skip_wait_until, CommandRequest, empty_command_request,
  CommandResults, new_command_results, LocalQueueMessageResult, AsyncStateExecutionInfo,
  VisibilityInfo, ImmediateTaskInfo, no_task_info,
}
use xdb.Database.Rows.{
  StateKey, AsyncStateExecutionRow, AsyncStateExecutionRowForUpdate, ImmediateTaskRowForInsert,
  LocalQueueMessageRow,
}
use xdb.Database.Tx.{Tx, Done, ◌>>◌, pure}
use xdb.Database.Statements.{insert_async_state_execution_row, select_local_queue_messages}
use xdb.Database.Tasks.{insert_immediate_task_row}

-- The conversions int32(n) and int(n) of the two's complement patterns.
abbrev pub to_int32 : ℕ → ℕ
to_int32 n = n % 2 ^ 32

abbrev pub from_int32 : ℕ → ℕ
from_int32 n = if ltb n (2 ^ 31) then n else n + (2 ^ 64 - 2 ^ 32)

abbrev pub first_status : Bool → StateExecutionStatus
first_status skip = if skip then execute_running else wait_until_running

abbrev pub first_task : Bool → ImmediateTaskType
first_task skip = if skip then execute else wait_until

abbrev pub new_state_row :
    Option AsyncStateConfig → EncodedObject → AsyncStateExecutionInfo → AsyncStateExecutionRow
new_state_row config input info = record {
  version = 1;
  status = first_status (get_skip_wait_until config);
  wait_until_commands = empty_command_request;
  wait_until_command_results = new_command_results;
  last_failure = none;
  input = input;
  info = info;
}

-- insertAsyncStateExecution
unfoldable pub insert_async_state_execution :
    Uuid
    → GoString
    → ℕ
    → Option AsyncStateConfig
    → EncodedObject
    → AsyncStateExecutionInfo
    → Tx Done
unfolding insert_async_state_execution_row
insert_async_state_execution id state_id seq config input info =
    insert_async_state_execution_row (id, (state_id, to_int32 seq))
      (new_state_row config input info)

-- A task of a state execution without an info.
abbrev pub state_task : ℕ → ImmediateTaskType → StateKey → ImmediateTaskRowForInsert
state_task shard type (id, (state_id, seq)) = record {
  shard_id = shard;
  task_type = type;
  process_execution_id = id;
  state_id = state_id;
  state_id_sequence = seq;
  info = no_task_info;
}

-- insertImmediateTask
unfoldable pub insert_immediate_task : Uuid → GoString → ℕ → Option AsyncStateConfig → ℕ → Tx Done
unfolding insert_immediate_task_row
insert_immediate_task id state_id seq config shard =
    insert_immediate_task_row
      (state_task shard (first_task (get_skip_wait_until config)) (id, (state_id, to_int32 seq)))

-- A task that belongs to the process execution, not to a state.
abbrev pub process_task :
    ℕ → ImmediateTaskType → Uuid → ImmediateTaskInfo → ImmediateTaskRowForInsert
process_task shard type id info = record {
  shard_id = shard;
  task_type = type;
  process_execution_id = id;
  state_id = [];
  state_id_sequence = 0;
  info = info;
}

-- AddVisibilityTaskRecordProcessExecutionStatus
unfoldable pub add_visibility_task_record_process_execution_status : ℕ → VisibilityInfo → Tx Done
unfolding insert_immediate_task_row
add_visibility_task_record_process_execution_status shard v = insert_immediate_task_row (
    process_task shard visibility v.process_execution_id
      (record no_task_info { visibility_info = some v }))

abbrev pub all_messages : GoMap ℕ (List InternalLocalQueueMessage) → List InternalLocalQueueMessage
all_messages [] = []
all_messages ((_, ms) ∷ m) = ms ++ all_messages m

-- getDedupIdToLocalQueueMessageMap: it reads the committed tables
unfoldable pub get_dedup_id_to_local_queue_message_map :
    Uuid → List InternalLocalQueueMessage → Tx (GoMap Uuid LocalQueueMessageRow)
unfolding select_local_queue_messages
get_dedup_id_to_local_queue_message_map id ms e db =
    ok (select_local_queue_messages e.committed id (map (λ m. m.dedup_id) ms), db)

abbrev pub result_of :
    Option LocalQueueMessageRow
    → Result (List LocalQueueMessageResult)
    → Result (List LocalQueueMessageResult)
result_of none rest = err panic
result_of (some row) (err x) = err x
result_of (some row) (ok rest) =
    ok (record { dedup_id = row.dedup_id; payload = row.payload } ∷ rest)

unfoldable pub message_results :
    GoMap Uuid LocalQueueMessageRow
    → List InternalLocalQueueMessage
    → Result (List LocalQueueMessageResult)
message_results rows [] = ok []
message_results rows (m ∷ ms) = result_of (get rows m.dedup_id) (message_results rows ms)

-- updateCommandResultsWithNewlyConsumedLocalQueueMessages: a message without a row panics
unfoldable pub update_command_results_with_newly_consumed_local_queue_messages :
    CommandResults
    → GoMap ℕ (List InternalLocalQueueMessage)
    → GoMap Uuid LocalQueueMessageRow
    → Result CommandResults
unfolding message_results
update_command_results_with_newly_consumed_local_queue_messages r [] rows = ok r
update_command_results_with_newly_consumed_local_queue_messages r ((i, ms) ∷ m) rows =
    elim (message_results rows ms) [
      | err x ↦ err x
      | ok results ↦
          update_command_results_with_newly_consumed_local_queue_messages
            (record r { local_queue_results = set r.local_queue_results i results }) m rows
    ]

-- updateCommandResultsWithFiredTimerCommand
abbrev pub update_command_results_with_fired_timer_command : CommandResults → ℕ → CommandResults
update_command_results_with_fired_timer_command r i = record r {
  timer_results = set r.timer_results i true;
}

abbrev pub answered : CommandResults → ℕ
answered r = length r.local_queue_results + length r.timer_results

abbrev pub asked : CommandRequest → ℕ
asked c = length c.local_queue_commands + length c.timer_commands

abbrev pub completes : CommandWaitingType → ℕ → ℕ → Bool
completes any_of_completion answers questions = ltb 0 answers
completes all_of_completion answers questions = answers == questions
completes empty_command answers questions = true

-- hasCompletedWaitUntilWaiting
unfoldable pub has_completed_wait_until_waiting : CommandRequest → CommandResults → Bool
has_completed_wait_until_waiting c r = completes c.waiting_type (answered r) (asked c)

-- The printed id of the state execution, the key of its commands in the local queues.
abbrev pub queue_key : StateKey → GoString
queue_key (_, (state_id, seq)) =
    get_state_execution_id (record { state_id = state_id; state_id_sequence = seq })

-- updateWhenCompletedWaitUntilWaiting: the local queues and the row that it changes are results
unfoldable pub update_when_completed_wait_until_waiting :
    ℕ
    → StateExecutionLocalQueues
    → AsyncStateExecutionRowForUpdate
    → Tx (StateExecutionLocalQueues × AsyncStateExecutionRowForUpdate)
unfolding insert_immediate_task_row cleanup_for get_state_execution_id
update_when_completed_wait_until_waiting shard queues row = do
  insert_immediate_task_row (state_task shard execute row.key)
  pure (cleanup_for queues (queue_key row.key), record row { status = execute_running })
