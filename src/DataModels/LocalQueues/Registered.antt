-- ===== src/DataModels/LocalQueues/Registered.antt =====
-- What a state that starts to wait for commands gets: AddNewLocalQueueCommands followed by
-- TryConsumeForStateExecution, as wait_until.go calls them.
use xdb.Prelude.{
  ℕ, suc, ◌<◌, ◌≡◌, ◌≢◌, refl, sym, ap, ◌∙◌, subst, arith, Bool, false, List, [], ◌∷◌, none, some,
  length, GoMap, GoString, nat_key, string_key, string_discrete, if_pos, Bool-cases, Option-cases,
  inl, inr, ◌==◌,
}
use xdb.Prelude.Maps.{
  or_empty, get, set, delete, get-set_ne, get-set_self, get-delete_ne, get-delete_self, UniqueKeys,
  AllEntries, get-AllEntries, AllEntries-set, AllEntries-map, AllEntries-get, set-UniqueKeys,
  delete-UniqueKeys,
}
use xdb.DataModels.LocalQueues.Lookup.{IsMap, get-put_commands}
use xdb.DataModels.LocalQueues.Settled.Consuming.{
  Waits, consume_all-shrinks, consume_all_idle, consume_all-Waits, put_commands-IsMap, or_empty-All,
}
use xdb.DataModels.LocalQueues.Settled.{IsSettled}
use xdb.DataModels.LocalQueues.{
  LocalQueueCommand, StateExecutionLocalQueues, Commands, Messages, put_commands, Consuming,
  consume_all, CommandWaitingType, is_any, add_commands, with_count, add_new_local_queue_commands,
  after_consuming, consume_one, try_consume_for_state_execution,
}

get-put_commands_ne :
    (cs : Commands) (key k : GoString) (rest : GoMap ℕ LocalQueueCommand)
    → key ≢ k
    → get (put_commands cs key rest) k ≡ get cs k
unfolding put_commands
get-put_commands_ne cs key k [] n = get-delete_ne cs key k n
get-put_commands_ne cs key k (x ∷ m) n = get-set_ne cs key k (x ∷ m) n

-- The commands of every state but one wait.
abbrev WaitElsewhere : Messages → GoString → Commands → Type 0
WaitElsewhere u key cs =
    (k : GoString) (m : GoMap ℕ LocalQueueCommand)
    → get cs k ≡ some m
    → k ≢ key
    → AllEntries (Waits u) m

settled_put :
    (u : Messages) (cs : Commands) (key : GoString) (rest : GoMap ℕ LocalQueueCommand)
    → UniqueKeys (put_commands cs key rest)
    → WaitElsewhere u key cs
    → AllEntries (Waits u) rest
    → AllEntries (λ k m. AllEntries (Waits u) m) (put_commands cs key rest)
settled_put u cs key rest unique w h =
    AllEntries-get (λ k m. AllEntries (Waits u) m) (put_commands cs key rest) unique
      λ k m e. elim (string_discrete key k) [
        | yes p ↦
            subst (AllEntries (Waits u))
              (sym (get-put_commands cs key k rest ∙ if_pos (string_discrete key k) p _ _)
                ∙ ap or_empty e)
              h
        | no n ↦ w k m (sym (get-put_commands_ne cs key k rest n) ∙ e) (λ q. n (sym q))
      ]

settled_delete :
    (u : Messages) (cs : Commands) (key : GoString)
    → UniqueKeys cs
    → WaitElsewhere u key cs
    → AllEntries (λ k m. AllEntries (Waits u) m) (delete cs key)
settled_delete u cs key unique w =
    AllEntries-get (λ k m. AllEntries (Waits u) m) (delete cs key) (delete-UniqueKeys cs key unique)
      λ k m e. elim (string_discrete key k) [
        | yes p ↦ absurd (cc (subst (λ x. get (delete cs key) x ≡ none) p (get-delete_self cs key)))
        | no n ↦ w k m (sym (get-delete_ne cs key k n) ∙ e) (λ q. n (sym q))
      ]

abbrev started : Messages → Consuming
started u = record { unconsumed = u; remaining = []; consumed = []; stop = false }

WaitElsewhere-consume_all :
    (any : Bool) (u : Messages) (key : GoString) (cs : Commands) (m : GoMap ℕ LocalQueueCommand)
    → AllEntries (λ i c. 0 < c.count) m
    → WaitElsewhere u key cs
    → WaitElsewhere (consume_all any (started u) m).unconsumed key cs
WaitElsewhere-consume_all any u key cs m p w k n e other =
    AllEntries-map (Waits u) (Waits (consume_all any (started u) m).unconsumed) n
      (λ i c h. omega (arith, consume_all-shrinks any (started u) m c.queue_name p)) (w k n e other)

after_consuming-IsSettled :
    (s : StateExecutionLocalQueues) (key : GoString) (any : Bool) (r : Consuming)
    → IsMap s.commands
    → UniqueKeys r.remaining
    → WaitElsewhere r.unconsumed key s.commands
    → (any ≡ false → AllEntries (Waits r.unconsumed) r.remaining)
    → let m = or_empty (get s.commands key) in
      (length r.remaining ≡ length m → AllEntries (Waits r.unconsumed) m)
      → IsSettled (after_consuming s key any (length m) r)
unfolding after_consuming
after_consuming-IsSettled s key any r unique ur w rest same =
    elim (Bool-cases (length r.remaining == length (or_empty (get s.commands key)))) [
      | inl e ↦ rw e (
          AllEntries-get _ s.commands unique.0 λ k m g. elim (string_discrete key k) [
            | yes p ↦
                subst (AllEntries (Waits r.unconsumed))
                  (ap (λ x. or_empty (get s.commands x)) p ∙ ap or_empty g) (same (ground arith))
            | no n ↦ w k m g (λ q. n (sym q))
          ])
      | inr e ↦ elim (Bool-cases any) [
        | inl a ↦
            rw (e, a)
              (settled_delete r.unconsumed (put_commands s.commands key r.remaining) key
                (put_commands-IsMap s.commands key r.remaining unique ur).0
                λ k m g n.
                  w k m
                    (sym (get-put_commands_ne s.commands key k r.remaining (λ q. n (sym q))) ∙ g) n)
        | inr a ↦
            rw (e, a)
              (settled_put r.unconsumed s.commands key r.remaining
                (put_commands-IsMap s.commands key r.remaining unique ur).0 w (rest a))
      ]
    ]

consume_all-UniqueKeys :
    (any : Bool) (r : Consuming) (m : GoMap ℕ LocalQueueCommand)
    → UniqueKeys r.remaining
    → UniqueKeys (consume_all any r m).remaining
unfolding consume_all consume_one
consume_all-UniqueKeys any r [] u = u
consume_all-UniqueKeys any r ((i, c) ∷ m) u =
    consume_all-UniqueKeys any (consume_one any r i c) m
      (ground (arith, set-UniqueKeys r.remaining i c u))

-- Whatever a state waits for, once it has taken what its queues hold it waits for more than they
-- hold; the commands of the other states keep waiting.
pub try_consume_for_state_execution-IsSettled :
    (s : StateExecutionLocalQueues) (key : GoString) (waiting : CommandWaitingType)
    → IsMap s.commands
    → AllEntries (λ i c. 0 < c.count) (or_empty (get s.commands key))
    → WaitElsewhere s.unconsumed key s.commands
    → IsSettled (try_consume_for_state_execution s key waiting).0
unfolding try_consume_for_state_execution
try_consume_for_state_execution-IsSettled s key waiting unique pos w =
    let m = or_empty (get s.commands key) in
    let any = is_any waiting in
    after_consuming-IsSettled s key any (consume_all any (started s.unconsumed) m) unique
      (consume_all-UniqueKeys any (started s.unconsumed) m tt)
      (WaitElsewhere-consume_all any s.unconsumed key s.commands m pos w)
      (λ a.
        subst
          (λ b.
            AllEntries (Waits (consume_all b (started s.unconsumed) m).unconsumed)
              (consume_all b (started s.unconsumed) m).remaining)
          (sym a) (consume_all-Waits (started s.unconsumed) m pos refl tt))
      (λ e.
        let (kept, wait) = consume_all_idle any (started s.unconsumed) m pos refl (omega arith) in
        subst (λ u. AllEntries (Waits u) m) (sym kept) wait)

add_commands-All :
    (n : ℕ) (cs : List LocalQueueCommand) (m : GoMap ℕ LocalQueueCommand)
    → AllEntries (λ i c. 0 < c.count) m
    → AllEntries (λ i c. 0 < c.count) (add_commands n cs m)
unfolding add_commands
add_commands-All n [] m h = h
add_commands-All n (c ∷ cs) m h =
    add_commands-All (suc n) cs (set m n (with_count c))
      (AllEntries-set (λ i c. 0 < c.count) m n (with_count c) h (ground arith))

add_commands-UniqueKeys :
    (n : ℕ) (cs : List LocalQueueCommand) (m : GoMap ℕ LocalQueueCommand)
    → UniqueKeys m
    → UniqueKeys (add_commands n cs m)
unfolding add_commands
add_commands-UniqueKeys n [] m h = h
add_commands-UniqueKeys n (c ∷ cs) m h =
    add_commands-UniqueKeys (suc n) cs (set m n (with_count c))
      (set-UniqueKeys m n (with_count c) h)

or_empty-UniqueKeys :
    (cs : Commands) (key : GoString) → IsMap cs → UniqueKeys (or_empty (get cs key))
or_empty-UniqueKeys cs key u = elim (Option-cases (get cs key)) [
  | inl e ↦ rw e tt
  | inr (m, e) ↦ rw e (get-AllEntries (λ k m. UniqueKeys m) cs key m u.1 e)
]

pub add_new_local_queue_commands-IsMap :
    (s : StateExecutionLocalQueues) (key : GoString) (cs : List LocalQueueCommand)
    → IsMap s.commands
    → IsMap (add_new_local_queue_commands s key cs).commands
unfolding add_new_local_queue_commands
add_new_local_queue_commands-IsMap s key cs u =
    let m = add_commands 0 cs (or_empty (get s.commands key)) in
    let um =
      add_commands-UniqueKeys 0 cs (or_empty (get s.commands key))
        (or_empty-UniqueKeys s.commands key u) in
    (
      set-UniqueKeys s.commands key m u.0,
      AllEntries-set (λ k m. UniqueKeys m) s.commands key m u.1 um,
    )

-- A state execution that registers its queue commands, whatever they are and in whatever order
-- Go goes through them, and takes what the queues hold, leaves no command waiting, of its own or of
-- another state, that its queue could serve.
pub register_and_consume-IsSettled :
    (s : StateExecutionLocalQueues) (key : GoString) (cs : List LocalQueueCommand)
    (waiting : CommandWaitingType)
    → IsMap s.commands
    → IsSettled s
    → IsSettled
        (try_consume_for_state_execution (add_new_local_queue_commands s key cs) key waiting).0
unfolding add_new_local_queue_commands
register_and_consume-IsSettled s key cs waiting u h =
    let m = add_commands 0 cs (or_empty (get s.commands key)) in
    try_consume_for_state_execution-IsSettled (add_new_local_queue_commands s key cs) key waiting
      (add_new_local_queue_commands-IsMap s key cs u)
      (rw (get-set_self s.commands key m)
        (add_commands-All 0 cs (or_empty (get s.commands key)) (or_empty-positive s key h)))
      (λ k n e other.
        get-AllEntries (λ k m. AllEntries (Waits s.unconsumed) m) s.commands k n h
          (sym (get-set_ne s.commands key k m (λ q. other (sym q))) ∙ e))
  where
    or_empty-positive :
        (s : StateExecutionLocalQueues) (key : GoString)
        → IsSettled s
        → AllEntries (λ i c. 0 < c.count) (or_empty (get s.commands key))
    or_empty-positive s key h =
        AllEntries-map (Waits s.unconsumed) (λ i c. 0 < c.count) (or_empty (get s.commands key))
          (λ i c w. omega arith) (or_empty-All (Waits s.unconsumed) s.commands key h)
