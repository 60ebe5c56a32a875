-- ===== src/Process/Publish.antt =====
-- publishToLocalQueue of persistence/process/sql_process_store_common.go, and
-- publish_to_local_queue.go.
pub mod Once
use xdb.Prelude.{
  ℕ, suc, Bool, true, false, List, [], ◌∷◌, ◌++◌, Option, none, some, Error, Result, ok, err,
  not_found, invalid_format, if◌then◌else◌, GoString, nat_key, string_key, pair_key,
}
use xdb.DataModels.Enums.{
  ProcessExecutionStatus, is_running, ImmediateTaskType, new_local_queue_messages,
}
use xdb.DataModels.LocalQueues.{LocalQueueMessageInfo}
use xdb.DataModels.Infos.{Uuid, EncodedObject, from_encoded_object, ImmediateTaskInfo, no_task_info}
use xdb.Database.Rows.{Db, ProcessExecutionRow, ProcessExecutionRowForUpdate, LocalQueueMessageRow}
use xdb.Database.Tx.{
  Tx, Env, Done, ◌>>=◌, ◌>>◌, pure, fail, lift, Connection, AppAnswer, run_tx, always_commits,
}
use xdb.Database.Statements.{
  select_latest_process_execution, select_process_execution_for_update, insert_local_queue_message,
}
use xdb.Database.Tasks.{insert_immediate_task_row}
use xdb.Process.Common.{process_task}

-- The dedup id of a message: none or the empty string, a UUID, or a string that is no UUID.
pub data DedupId : Type 0 where
  no_dedup : DedupId
  parsed : Uuid → DedupId
  malformed : DedupId

-- xcapi.LocalQueueMessage
pub record LocalQueueMessage : Type 0 where
  pub queue_name : GoString
  pub dedup_id : DedupId
  pub payload : Option EncodedObject

-- `drawn i` is the UUID that is drawn for the message at index i.
abbrev pub dedup_of : Uuid → DedupId → Result Uuid
dedup_of fresh no_dedup = ok fresh
dedup_of fresh (parsed id) = ok id
dedup_of fresh malformed = err invalid_format

abbrev pub message_row : Uuid → Uuid → LocalQueueMessage → LocalQueueMessageRow
message_row id dedup m = record {
  process_execution_id = id;
  queue_name = m.queue_name;
  dedup_id = dedup;
  payload = from_encoded_object m.payload;
}

abbrev pub info_if : Bool → LocalQueueMessageInfo → List LocalQueueMessageInfo
info_if inserted i = if inserted then i ∷ [] else []

-- The loop: the messages that were inserted.
unfoldable pub insert_messages :
    (ℕ → Uuid) → Uuid → List LocalQueueMessage → ℕ → Tx (List LocalQueueMessageInfo)
unfolding insert_local_queue_message
insert_messages drawn id [] i = pure []
insert_messages drawn id (m ∷ ms) i = do
  dedup ← lift (dedup_of (drawn i) m.dedup_id)
  inserted ← insert_local_queue_message (message_row id dedup m)
  infos ← insert_messages drawn id ms (suc i)
  pure (info_if inserted (record { queue_name = m.queue_name; dedup_id = dedup }) ++ infos)

unfoldable pub insert_messages_task : Uuid → ℕ → List LocalQueueMessageInfo → Tx Bool
unfolding insert_immediate_task_row
insert_messages_task id shard [] = pure false
insert_messages_task id shard (i ∷ is) = do
  insert_immediate_task_row (
      process_task shard new_local_queue_messages id
        (record no_task_info { local_queue_message_info = i ∷ is }))
  pure true

-- publishToLocalQueue: whether there is a new immediate task
unfoldable pub publish_to_local_queue : (ℕ → Uuid) → Uuid → ℕ → List LocalQueueMessage → Tx Bool
unfolding insert_messages insert_messages_task
publish_to_local_queue drawn id shard ms = do
  infos ← insert_messages drawn id ms 0
  insert_messages_task id shard infos

-- PublishToLocalQueueRequest and its response
pub record PublishToLocalQueueRequest : Type 0 where
  pub namespace : GoString
  pub process_id : GoString
  pub messages : List LocalQueueMessage

pub record PublishToLocalQueueResponse : Type 0 where
  pub process_execution_id : Uuid
  pub shard_id : ℕ
  pub has_new_immediate_task : Bool
  pub process_not_exists : Bool
  pub process_not_running : Bool

abbrev pub no_publish : PublishToLocalQueueResponse
no_publish = record {
  process_execution_id = 0;
  shard_id = 0;
  has_new_immediate_task = false;
  process_not_exists = false;
  process_not_running = false;
}

-- The session's read of the latest process execution, with a missing one told apart.
abbrev pub or_missing :
    Result (Uuid × ProcessExecutionRow) → Result (Option (Uuid × ProcessExecutionRow))
or_missing (ok r) = ok (some r)
or_missing (err not_found) = ok none
or_missing (err x) = err x

unfoldable pub latest_in_session : GoString × GoString → Tx (Option (Uuid × ProcessExecutionRow))
unfolding select_latest_process_execution
latest_in_session key e db = elim (or_missing (select_latest_process_execution e.committed key)) [
  | ok r ↦ ok (r, db)
  | err x ↦ err x
]

unfoldable pub publish_to_process :
    (ℕ → Uuid)
    → List LocalQueueMessage
    → Option (Uuid × ProcessExecutionRow)
    → Tx PublishToLocalQueueResponse
unfolding publish_to_local_queue select_process_execution_for_update
publish_to_process drawn ms none = pure (record no_publish { process_not_exists = true })
publish_to_process drawn ms (some (id, _)) = do
  row ← select_process_execution_for_update id
  if is_running row.status
      then (do
        has_new ← publish_to_local_queue drawn id row.shard_id ms
        pure (record no_publish {
          process_execution_id = id;
          shard_id = row.shard_id;
          has_new_immediate_task = has_new;
        }))
      else pure (record no_publish { process_not_running = true })

-- doPublishToLocalQueueTx
unfoldable pub do_publish_to_local_queue_tx :
    (ℕ → Uuid) → PublishToLocalQueueRequest → Tx PublishToLocalQueueResponse
unfolding publish_to_process latest_in_session
do_publish_to_local_queue_tx drawn request = do
  latest ← latest_in_session (request.namespace, request.process_id)
  publish_to_process drawn request.messages latest

-- PublishToLocalQueue
unfoldable pub publish_to_local_queue_op :
    Connection
    → (ℕ → Uuid)
    → PublishToLocalQueueRequest
    → ℕ
    → AppAnswer
    → Db
    → Result PublishToLocalQueueResponse × Db
unfolding run_tx do_publish_to_local_queue_tx
publish_to_local_queue_op c drawn request =
    run_tx c always_commits (do_publish_to_local_queue_tx drawn request)
