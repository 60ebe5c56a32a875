-- ===== src/DataModels/LocalQueues/Settled.antt =====
-- No state waits for messages that its queue could serve: what the operations keep.
pub mod Consuming
use xdb.Prelude.{
  ℕ, ◌+◌, ◌≤◌, ◌<◌, ◌≡◌, ◌≢◌, refl, sym, ap, ◌∙◌, subst, arith, Bool, true, false, List, [], ◌∷◌,
  ◌++◌, Option, none, some, length, drop, length-drop, length-append, GoMap, GoString, nat_key,
  string_key, string_discrete, ite, if_pos, if_neg, Bool-cases, Option-cases, inl, inr,
}
use xdb.Prelude.Maps.{
  or_empty, get, set, delete, get-set_ne, UniqueKeys, AllEntries, get-AllEntries, AllEntries-set,
  AllEntries-delete, AllEntries-map, AllEntries-zip, set-UniqueKeys, delete-UniqueKeys,
}
use xdb.DataModels.LocalQueues.Messages.{messages_of-add_message}
use xdb.DataModels.LocalQueues.Lookup.{
  IsMap, messages_of-put_messages, find_command-none, find_command-get,
}
use xdb.DataModels.LocalQueues.{
  LocalQueueCommand, InternalLocalQueueMessage, LocalQueueMessageInfo, StateExecutionLocalQueues,
  Commands, Messages, messages_of, put_messages, put_commands, find_command, consume_found,
  add_message, new_message, add_message_and_try_consume,
}
use Consuming.{Waits, put_commands-All, or_empty-All, put_commands-IsMap}

-- Every command asks for more messages than its queue holds.
abbrev pub IsSettled : StateExecutionLocalQueues → Type 0
IsSettled s = AllEntries (λ key m. AllEntries (Waits s.unconsumed) m) s.commands

-- After one more message a command of that queue may ask for just what is there.
abbrev IsClose : Messages → GoString → ℕ → LocalQueueCommand → Type 0
IsClose u queue i c =
    (c.queue_name ≡ queue → (length (messages_of u queue) ≤ c.count) × (0 < c.count))
    × (c.queue_name ≢ queue → Waits u i c)

add_message-IsClose :
    (s : StateExecutionLocalQueues) (m : LocalQueueMessageInfo) (i : ℕ) (c : LocalQueueCommand)
    → Waits s.unconsumed i c
    → IsClose (add_message s m).unconsumed m.queue_name i c
add_message-IsClose s m i c h = (
  λ p.
      rw (messages_of-add_message s m m.queue_name, if_pos _ refl)
        (omega (
          arith,
          length-append (messages_of s.unconsumed m.queue_name) (new_message m ∷ []),
          subst (λ q. length (messages_of s.unconsumed q) < c.count) p h,
        )),
  λ n. rw (get-set_ne s.unconsumed m.queue_name c.queue_name _ (λ e. n (sym e))) h,
)

-- With the queue emptied such a command waits again.
IsClose-put :
    (u : Messages) (queue : GoString) (n i : ℕ) (c : LocalQueueCommand)
    → length (messages_of u queue) ≤ n
    → IsClose u queue i c
    → Waits (put_messages u queue (drop n (messages_of u queue))) i c
IsClose-put u queue n i c le h =
    rw (messages_of-put_messages u queue c.queue_name (drop n (messages_of u queue)))
      (elim (string_discrete queue c.queue_name) [
        | yes p ↦ rw (if_pos _ p) (omega (arith, length-drop n (messages_of u queue), h.0 (sym p)))
        | no other ↦ rw (if_neg _ other) (h.1 (λ e. other (sym e)))
      ])

IsClose-Waits :
    (u : Messages) (queue : GoString) (i : ℕ) (c : LocalQueueCommand)
    → IsClose u queue i c
    → (c.queue_name ≡ queue → length (messages_of u queue) < c.count)
    → Waits u i c
IsClose-Waits u queue i c h k = elim (string_discrete c.queue_name queue) [
  | yes p ↦ subst (λ q. length (messages_of u q) < c.count) (sym p) (k p)
  | no other ↦ h.1 other
]

consume_found-IsSettled :
    (s : StateExecutionLocalQueues) (q : GoString) (o : Option (GoString × ℕ × LocalQueueCommand))
    → IsMap s.commands
    → AllEntries (λ key m. AllEntries (IsClose s.unconsumed q) m) s.commands
    → find_command s.commands q (length (messages_of s.unconsumed q)) ≡ o
    → IsSettled (consume_found s q o).0
unfolding consume_found
consume_found-IsSettled s q none u h e =
    AllEntries-zip (λ key m. AllEntries (IsClose s.unconsumed q) m) _
      (λ key m. AllEntries (Waits s.unconsumed) m) s.commands
      (λ key m close large.
        AllEntries-zip (IsClose s.unconsumed q) _ (Waits s.unconsumed) m
          (IsClose-Waits s.unconsumed q) close large)
      h (find_command-none s.commands q (length (messages_of s.unconsumed q)) e)
consume_found-IsSettled s q (some (key, i, c)) u h e =
    let (m, g, g', (same, fits)) =
      find_command-get s.commands q key (length (messages_of s.unconsumed q)) i c u e in
    let close =
      get-AllEntries (IsClose s.unconsumed q) m i c
        (get-AllEntries (λ key m. AllEntries (IsClose s.unconsumed q) m) s.commands key m h g) g' in
    let emptied : AllEntries
        (λ key m.
          AllEntries
            (Waits (put_messages s.unconsumed q (drop c.count (messages_of s.unconsumed q)))) m)
        s.commands =
      AllEntries-map (λ key m. AllEntries (IsClose s.unconsumed q) m) _ s.commands
        (λ key m.
          AllEntries-map (IsClose s.unconsumed q) _ m
            (λ j d. IsClose-put s.unconsumed q c.count j d (close.0 same).0))
        h in
    put_commands-All _ s.commands key _ emptied
      (AllEntries-delete _ _ i (or_empty-All _ s.commands key emptied))

-- If each queue held too few messages for the commands that wait for it, so it does after a
-- message came in and was handed on.
pub add_message_and_try_consume-IsSettled :
    (s : StateExecutionLocalQueues) (m : LocalQueueMessageInfo)
    → IsMap s.commands
    → IsSettled s
    → IsSettled (add_message_and_try_consume s m).0
unfolding add_message_and_try_consume
add_message_and_try_consume-IsSettled s m u h =
    consume_found-IsSettled (add_message s m) m.queue_name _ u
      (AllEntries-map (λ key cs. AllEntries (Waits s.unconsumed) cs) _ s.commands
        (λ key cs. AllEntries-map (Waits s.unconsumed) _ cs (add_message-IsClose s m)) h)
      refl
