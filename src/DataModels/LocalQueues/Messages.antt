-- ===== src/DataModels/LocalQueues/Messages.antt =====
-- Where the messages of the local queues go.
use xdb.Prelude.{
  ℕ, ◌≤◌, ◌≡◌, refl, sym, ap, ◌∙◌, arith, List, [], ◌∷◌, ◌++◌, Option, none, some, length, take,
  drop, take-append-drop, length-take, append-nil, GoString, nat_key, string_key, string_discrete,
  ite, if_pos, if_neg,
}
use xdb.Prelude.Maps.{or_empty, get, delete, get-set, get-delete_self}
use xdb.DataModels.LocalQueues.Lookup.{
  IsMap, messages_of-put_messages, get-put_commands, find_command-get,
}
use xdb.DataModels.LocalQueues.{
  LocalQueueCommand, InternalLocalQueueMessage, LocalQueueMessageInfo, StateExecutionLocalQueues,
  messages_of, put_commands, consume_found, add_message, new_message, add_message_and_try_consume,
}

-- The messages that a state gets.
abbrev pub taken :
    Option (GoString × ℕ × List InternalLocalQueueMessage) → List InternalLocalQueueMessage
taken none = []
taken (some (_, _, messages)) = messages

consume_found-taken :
    (s : StateExecutionLocalQueues) (q j : GoString) (o : Option (GoString × ℕ × LocalQueueCommand))
    → let (t, r) = consume_found s q o in
      ite (string_discrete q j) (taken r) [] ++ messages_of t.unconsumed j
      ≡ messages_of s.unconsumed j
unfolding consume_found
consume_found-taken s q j none = ground arith
consume_found-taken s q j (some (key, i, c)) =
    let all = messages_of s.unconsumed q in
    rw (messages_of-put_messages s.unconsumed q j (drop c.count all)) (elim (string_discrete q j) [
      | yes p ↦
          rw (if_pos _ p, if_pos _ p)
            (take-append-drop c.count all ∙ ap (messages_of s.unconsumed) p)
      | no n ↦ rw (if_neg _ n, if_neg _ n)
    ])

pub messages_of-add_message :
    (s : StateExecutionLocalQueues) (m : LocalQueueMessageInfo) (j : GoString)
    → messages_of (add_message s m).unconsumed j
      ≡ messages_of s.unconsumed j ++ ite (string_discrete m.queue_name j) (new_message m ∷ []) []
messages_of-add_message s m j =
    rw (get-set s.unconsumed m.queue_name j _) (elim (string_discrete m.queue_name j) [
      | yes p ↦ rw (if_pos _ p, if_pos _ p) (ground (arith))
      | no n ↦ rw (if_neg _ n, if_neg _ n) (sym (append-nil (messages_of s.unconsumed j)))
    ])

-- No message is lost or made up, and each queue is served first in, first out: what the state
-- gets, followed by what stays in the queue, is what was in the queue followed by the new message.
-- The other queues stay as they were.
pub add_message_and_try_consume_fifo :
    (s : StateExecutionLocalQueues) (m : LocalQueueMessageInfo) (j : GoString)
    → let (t, r) = add_message_and_try_consume s m in
      ite (string_discrete m.queue_name j) (taken r) [] ++ messages_of t.unconsumed j
      ≡ messages_of s.unconsumed j ++ ite (string_discrete m.queue_name j) (new_message m ∷ []) []
unfolding add_message_and_try_consume
add_message_and_try_consume_fifo s m j =
    consume_found-taken (add_message s m) m.queue_name j _ ∙ messages_of-add_message s m j

consume_found-eq-some :
    (s : StateExecutionLocalQueues) (q key : GoString) (i : ℕ)
    (messages : List InternalLocalQueueMessage) (o : Option (GoString × ℕ × LocalQueueCommand))
    → (consume_found s q o).1 ≡ some (key, i, messages)
    → (c : LocalQueueCommand) × (o ≡ some (key, i, c))
      × (messages ≡ take c.count (messages_of s.unconsumed q))
      × ((consume_found s q o).0.commands
          ≡ put_commands s.commands key (delete (or_empty (get s.commands key)) i))
unfolding consume_found
consume_found-eq-some s q key i messages none e = absurd (cc e)
consume_found-eq-some s q key i messages (some (key', i', c)) e =
    (c, ground arith, ground arith, ground arith)

length-take_of_le :
    (c : LocalQueueCommand) (all : List InternalLocalQueueMessage)
    → c.count ≤ length all
    → length (take c.count all) ≡ c.count
length-take_of_le c all h = omega (arith, length-take c.count all)

-- The messages go to a command that its state waits for: as many as the command asks for, of its
-- queue, and the state does not wait for that command any more.
pub add_message_and_try_consume_served :
    (s : StateExecutionLocalQueues) (m : LocalQueueMessageInfo) (key : GoString) (i : ℕ)
    (messages : List InternalLocalQueueMessage)
    → IsMap s.commands
    → let (t, r) = add_message_and_try_consume s m in
      r ≡ some (key, i, messages)
      → (c : LocalQueueCommand) × (get (or_empty (get s.commands key)) i ≡ some c)
        × (c.queue_name ≡ m.queue_name)
        × (length messages ≡ c.count)
        × (get (or_empty (get t.commands key)) i ≡ none)
unfolding add_message_and_try_consume
add_message_and_try_consume_served s m key i messages u e =
    let u' = add_message s m in
    let all = messages_of u'.unconsumed m.queue_name in
    let (c, found, took, after) = consume_found-eq-some u' m.queue_name key i messages _ e in
    let (cs, g, g', (same, fits)) = find_command-get s.commands m.queue_name key _ i c u found in
    (
      c,
      rw g g',
      same,
      rw took (length-take_of_le c all fits),
      rw after (
          rw
            (
              get-put_commands s.commands key key (delete (or_empty (get s.commands key)) i),
              if_pos (string_discrete key key) refl,
            )
            (get-delete_self (or_empty (get s.commands key)) i)),
    )
