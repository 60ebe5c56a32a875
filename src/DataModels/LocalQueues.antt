-- ===== src/DataModels/LocalQueues.antt =====
-- persistence/data_models/state_execution_local_queues_json.go: the messages of the local queues
-- that no state has consumed, and the queue commands that states wait for. A UUID and its printed
-- form are one number, and `""` with index -1 is `none`. Counts are not negative here.
pub mod Lookup
pub mod Messages
pub mod Settled
pub mod Registered
use xdb.Prelude.{
  ℕ, zero, suc, ◌+◌, Bool, true, false, not, ◌&&◌, ◌||◌, List, [], ◌∷◌, ◌++◌, Option, none, some,
  leb, ltb, ◌==◌, if◌then◌else◌, length, take, drop, GoMap, GoString, nat_key, string_key,
  string_discrete, ite, is_some,
}
use xdb.Prelude.Maps.{or_empty, is_empty, get, set, delete}

-- xcapi.LocalQueueCommand; GetCount reads a missing count as 0
pub record LocalQueueCommand : Type 0 where
  pub queue_name : GoString
  pub count : ℕ

-- LocalQueueMessageInfoJson and InternalLocalQueueMessage
pub record LocalQueueMessageInfo : Type 0 where
  pub queue_name : GoString
  pub dedup_id : ℕ

pub record InternalLocalQueueMessage : Type 0 where
  pub dedup_id : ℕ
  pub is_full : Bool

abbrev pub Commands : Type 0
Commands = GoMap GoString (GoMap ℕ LocalQueueCommand)

abbrev pub Messages : Type 0
Messages = GoMap GoString (List InternalLocalQueueMessage)

pub record StateExecutionLocalQueues : Type 0 where
  pub commands : Commands
  pub unconsumed : Messages

-- NewStateExecutionLocalQueues
abbrev pub new_state_execution_local_queues : StateExecutionLocalQueues
new_state_execution_local_queues = record { commands = []; unconsumed = [] }

-- A count of 0 means 1.
abbrev pub with_count : LocalQueueCommand → LocalQueueCommand
with_count c = if c.count == 0 then record c { count = 1 } else c

pub add_commands :
    ℕ → List LocalQueueCommand → GoMap ℕ LocalQueueCommand → GoMap ℕ LocalQueueCommand
add_commands idx [] m = m
add_commands idx (c ∷ cs) m = add_commands (suc idx) cs (set m idx (with_count c))

-- AddNewLocalQueueCommands; `key` is the printed id of the state execution
unfoldable pub add_new_local_queue_commands :
    StateExecutionLocalQueues → GoString → List LocalQueueCommand → StateExecutionLocalQueues
add_new_local_queue_commands s key cs = record s {
  commands = set s.commands key (add_commands 0 cs (or_empty (get s.commands key)));
}

abbrev pub messages_of : Messages → GoString → List InternalLocalQueueMessage
messages_of m queue = or_empty (get m queue)

-- The queue after its first messages are taken; an empty queue is deleted.
pub put_messages : Messages → GoString → List InternalLocalQueueMessage → Messages
put_messages m queue rest = if is_empty rest then delete m queue else set m queue rest

pub put_commands : Commands → GoString → GoMap ℕ LocalQueueCommand → Commands
put_commands m key rest = if is_empty rest then delete m key else set m key rest

-- The two loops of AddMessageAndTryConsume: the first command, in the order of the maps, that
-- waits for `queue` and asks for at most `n` messages.
pub find_in : GoMap ℕ LocalQueueCommand → GoString → ℕ → Option (ℕ × LocalQueueCommand)
find_in [] queue n = none
find_in ((i, c) ∷ m) queue n =
    ite (string_discrete c.queue_name queue)
      (if leb c.count n then some (i, c) else find_in m queue n) (find_in m queue n)

abbrev pub found_at :
    GoString
    → Option (ℕ × LocalQueueCommand)
    → Option (GoString × ℕ × LocalQueueCommand)
    → Option (GoString × ℕ × LocalQueueCommand)
found_at key none rest = rest
found_at key (some (i, c)) rest = some (key, i, c)

pub find_command : Commands → GoString → ℕ → Option (GoString × ℕ × LocalQueueCommand)
find_command [] queue n = none
find_command ((key, m) ∷ cs) queue n = found_at key (find_in m queue n) (find_command cs queue n)

unfoldable pub consume_found :
    StateExecutionLocalQueues
    → GoString
    → Option (GoString × ℕ × LocalQueueCommand)
    → StateExecutionLocalQueues × Option (GoString × ℕ × List InternalLocalQueueMessage)
unfolding put_messages put_commands
consume_found s queue none = (s, none)
consume_found s queue (some (key, i, c)) =
    let messages = messages_of s.unconsumed queue in
    (
      record {
        commands = put_commands s.commands key (delete (or_empty (get s.commands key)) i);
        unconsumed = put_messages s.unconsumed queue (drop c.count messages);
      },
      some (key, i, take c.count messages),
    )

abbrev pub new_message : LocalQueueMessageInfo → InternalLocalQueueMessage
new_message m = record { dedup_id = m.dedup_id; is_full = false }

abbrev pub add_message :
    StateExecutionLocalQueues → LocalQueueMessageInfo → StateExecutionLocalQueues
add_message s m = record s {
  unconsumed =
      set s.unconsumed m.queue_name (messages_of s.unconsumed m.queue_name ++ new_message m ∷ []);
}

-- AddMessageAndTryConsume
unfoldable pub add_message_and_try_consume :
    StateExecutionLocalQueues
    → LocalQueueMessageInfo
    → StateExecutionLocalQueues × Option (GoString × ℕ × List InternalLocalQueueMessage)
unfolding find_in find_command consume_found
add_message_and_try_consume s m =
    let t = add_message s m in
    consume_found t m.queue_name
      (find_command t.commands m.queue_name (length (messages_of t.unconsumed m.queue_name)))

pub data CommandWaitingType : Type 0 where
  empty_command any_of_completion all_of_completion : CommandWaitingType

abbrev pub is_any : CommandWaitingType → Bool
is_any any_of_completion = true
is_any _ = false

-- The variables of the loop of TryConsumeForStateExecution.
pub record Consuming : Type 0 where
  pub unconsumed : Messages
  pub remaining : GoMap ℕ LocalQueueCommand
  pub consumed : GoMap ℕ (List InternalLocalQueueMessage)
  pub stop : Bool

pub consume_one : Bool → Consuming → ℕ → LocalQueueCommand → Consuming
unfolding put_messages
consume_one any s i c =
    let messages = messages_of s.unconsumed c.queue_name in
    if s.stop || not (is_some (get s.unconsumed c.queue_name)) || ltb (length messages) c.count
    then record s { remaining = set s.remaining i c }
    else record {
      unconsumed = put_messages s.unconsumed c.queue_name (drop c.count messages);
      remaining = s.remaining;
      consumed = set s.consumed i (take c.count messages);
      stop = any || s.stop;
    }

pub consume_all : Bool → Consuming → GoMap ℕ LocalQueueCommand → Consuming
consume_all any s [] = s
consume_all any s ((i, c) ∷ m) = consume_all any (consume_one any s i c) m

-- CleanupFor
unfoldable pub cleanup_for : StateExecutionLocalQueues → GoString → StateExecutionLocalQueues
cleanup_for s key = record s { commands = delete s.commands key }

pub after_consuming :
    StateExecutionLocalQueues → GoString → Bool → ℕ → Consuming → StateExecutionLocalQueues
unfolding cleanup_for put_commands
after_consuming s key any before r =
    let t = record s { unconsumed = r.unconsumed } in
    let u = record t { commands = put_commands s.commands key r.remaining } in
    if length r.remaining == before then t else if any then cleanup_for u key else u

-- TryConsumeForStateExecution
unfoldable pub try_consume_for_state_execution :
    StateExecutionLocalQueues
    → GoString
    → CommandWaitingType
    → StateExecutionLocalQueues × GoMap ℕ (List InternalLocalQueueMessage)
unfolding consume_all after_consuming
try_consume_for_state_execution s key waiting =
    let m = or_empty (get s.commands key) in
    let r =
      consume_all (is_any waiting)
        (record { unconsumed = s.unconsumed; remaining = []; consumed = []; stop = false }) m in
    (after_consuming s key (is_any waiting) (length m) r, r.consumed)
