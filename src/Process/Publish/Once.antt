-- ===== src/Process/Publish/Once.antt =====
-- publishToLocalQueue of persistence/process/sql_process_store_common.go: messages with dedup ids
-- are published once, however often the call is repeated.
use xdb.Prelude.{
  ℕ, suc, Bool, true, false, List, [], ◌∷◌, ◌++◌, ok, ◌≡◌, refl, ap, ◌∙◌, is_some, GoMap, nat_key,
  string_key, pair_key, Bool-cases, if_pos, if_neg, inl, inr,
}
use xdb.Prelude.Maps.{get, set, get-set, get-set_self}
use xdb.DataModels.LocalQueues.{LocalQueueMessageInfo}
use xdb.DataModels.Infos.{Uuid}
use xdb.Database.Rows.{Db, LocalQueueMessageRow}
use xdb.Database.Tx.{◌>>=◌, Env, lift}
use xdb.Database.Statements.{insert_local_queue_message}
use xdb.Database.Tasks.{insert_immediate_task_row}
use xdb.Process.Publish.{
  LocalQueueMessage, parsed, dedup_of, message_row, info_if, insert_messages, insert_messages_task,
  publish_to_local_queue,
}

-- The message of the process execution with the dedup id is in the table.
abbrev IsStored : Db → Uuid → Uuid → Type 0
IsStored db id d = is_some (get db.messages (id, d)) ≡ true

-- The messages have dedup ids of their own.
abbrev pub AllParsed : List LocalQueueMessage → List Uuid → Type 0
AllParsed [] [] = Unit
AllParsed (m ∷ ms) (d ∷ ds) = (m.dedup_id ≡ parsed d) × AllParsed ms ds
AllParsed _ _ = ⊥

abbrev AllStored : Db → Uuid → List Uuid → Type 0
AllStored db id [] = Unit
AllStored db id (d ∷ ds) = IsStored db id d × AllStored db id ds

is_some-get-set :
    (m : GoMap (Uuid × Uuid) LocalQueueMessageRow) (i j : Uuid × Uuid) (v : LocalQueueMessageRow)
    → is_some (get m j) ≡ true
    → is_some (get (set m i v) j) ≡ true
is_some-get-set m i j v h =
    rw (get-set m i j v)
      (elim (pair_key.same i j) [ yes p ↦ rw (if_pos _ p) refl | no n ↦ rw (if_neg _ n) h ])

insert_local_queue_message-IsStored :
    (e : Env) (db : Db) (id d : Uuid) (m : LocalQueueMessage)
    → (b : Bool) × (db' : Db) × (insert_local_queue_message (message_row id d m) e db ≡ ok (b, db'))
      × IsStored db' id d
      × ((d' : Uuid) → IsStored db id d' → IsStored db' id d')
unfolding insert_local_queue_message
insert_local_queue_message-IsStored e db id d m =
    elim (Bool-cases (is_some (get db.messages (id, d)))) [
      | inl there ↦ rw there (_, _, refl, there, λ d' h. h)
      | inr absent ↦ rw absent (
        _,
        _,
        refl,
        ap is_some (get-set_self db.messages (id, d) _),
        λ d' h. is_some-get-set db.messages (id, d) (id, d') (message_row id d m) h,
      )
    ]

insert_local_queue_message-again :
    (e : Env) (db : Db) (id d : Uuid) (m : LocalQueueMessage)
    → IsStored db id d
    → insert_local_queue_message (message_row id d m) e db ≡ ok (false, db)
unfolding insert_local_queue_message
insert_local_queue_message-again e db id d m h = rw h refl

-- The first pass over the messages stores them all, and takes none away.
insert_messages-AllStored :
    (drawn : ℕ → Uuid) (id : Uuid) (ms : List LocalQueueMessage) (ds : List Uuid) (i : ℕ) (e : Env)
    (db : Db)
    → AllParsed ms ds
    → (infos : List LocalQueueMessageInfo) × (db' : Db) × (insert_messages drawn id ms i e db
        ≡ ok (infos, db'))
      × AllStored db' id ds
      × ((d' : Uuid) → IsStored db id d' → IsStored db' id d')
unfolding insert_messages
insert_messages-AllStored drawn id [] [] i e db h = ([], db, refl, tt, λ d' k. k)
insert_messages-AllStored drawn id [] (d ∷ ds) i e db h = elim h [ ]
insert_messages-AllStored drawn id (m ∷ ms) [] i e db h = elim h [ ]
insert_messages-AllStored drawn id (m ∷ ms) (d ∷ ds) i e db (p, h) =
    let (b, db1, inserted, here, kept) = insert_local_queue_message-IsStored e db id d m in
    let (infos, db2, ran, stored, kept') =
      insert_messages-AllStored drawn id ms ds (suc i) e db1 h in
    let dedup : lift (dedup_of (drawn i) m.dedup_id) e db ≡ ok (d, db) = rw p refl in
    (
      info_if b (record { queue_name = m.queue_name; dedup_id = d }) ++ infos,
      db2,
      rw (◌>>=◌, dedup, inserted, ran) refl,
      (kept' d here, stored),
      λ d' k. kept' d' (kept d' k),
    )

-- A later pass finds them all.
insert_messages-again :
    (drawn : ℕ → Uuid) (id : Uuid) (ms : List LocalQueueMessage) (ds : List Uuid) (i : ℕ) (e : Env)
    (db : Db)
    → AllParsed ms ds
    → AllStored db id ds
    → insert_messages drawn id ms i e db ≡ ok ([], db)
unfolding insert_messages
insert_messages-again drawn id [] [] i e db h s = refl
insert_messages-again drawn id [] (d ∷ ds) i e db h s = elim h [ ]
insert_messages-again drawn id (m ∷ ms) [] i e db h s = elim h [ ]
insert_messages-again drawn id (m ∷ ms) (d ∷ ds) i e db (p, h) (here, stored) =
    rw
      (
        ◌>>=◌,
        p,
        insert_local_queue_message-again e db id d m here,
        insert_messages-again drawn id ms ds (suc i) e db h stored,
      )
      refl

insert_messages_task-states :
    (id : Uuid) (shard : ℕ) (infos : List LocalQueueMessageInfo) (e : Env) (db : Db)
    → (b : Bool) × (db' : Db) × (insert_messages_task id shard infos e db ≡ ok (b, db'))
      × (db'.messages ≡ db.messages)
unfolding insert_messages_task insert_immediate_task_row
insert_messages_task-states id shard [] e db = (false, db, refl, refl)
insert_messages_task-states id shard (i ∷ is) e db = (true, _, refl, refl)

messages-AllStored :
    (db db' : Db) (id : Uuid) (ds : List Uuid)
    → db'.messages ≡ db.messages
    → AllStored db id ds
    → AllStored db' id ds
messages-AllStored db db' id [] same h = tt
messages-AllStored db db' id (d ∷ ds) same (here, h) =
    (ap (λ m. is_some (get m (id, d))) same ∙ here, messages-AllStored db db' id ds same h)

-- Publishing messages with dedup ids succeeds, and to publish them again, from any shard and at
-- any later time, inserts neither a message nor a task.
pub publish_to_local_queue-once :
    (drawn drawn' : ℕ → Uuid) (id : Uuid) (shard shard' : ℕ) (ms : List LocalQueueMessage)
    (ds : List Uuid) (e e' : Env) (db : Db)
    → AllParsed ms ds
    → (b : Bool) × (db' : Db) × (publish_to_local_queue drawn id shard ms e db ≡ ok (b, db'))
      × (publish_to_local_queue drawn' id shard' ms e' db' ≡ ok (false, db'))
unfolding publish_to_local_queue
publish_to_local_queue-once drawn drawn' id shard shard' ms ds e e' db h =
    let (infos, db1, ran, stored, _) = insert_messages-AllStored drawn id ms ds 0 e db h in
    let (b, db2, tasked, same) = insert_messages_task-states id shard infos e db1 in
    let again =
      insert_messages-again drawn' id ms ds 0 e' db2 h
        (messages-AllStored db1 db2 id ds same stored) in
    (b, db2, rw (◌>>=◌, ran, tasked) refl, rw (◌>>=◌, again, insert_messages_task) refl)
