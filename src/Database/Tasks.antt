-- ===== src/Database/Tasks.antt =====
-- The statements of extensions/postgres on the tables of immediate tasks and timer tasks.
pub mod Sorting
use xdb.Prelude.{
  ℕ, suc, ◌+◌, Bool, true, false, List, [], ◌∷◌, ◌++◌, ok, if◌then◌else◌, leb, ◌==◌, ◌&&◌, not,
  take,
}
use xdb.Database.Rows.{
  Db, ImmediateTaskRowForInsert, ImmediateTaskRow, TimerTaskRowForInsert, TimerTaskRow,
}
use xdb.Database.Tx.{Tx, Done}

-- InsertImmediateTask: the sequence is the next value of the bigserial
unfoldable pub insert_immediate_task_row : ImmediateTaskRowForInsert → Tx Done
insert_immediate_task_row row e db = ok (
  tt,
  record db {
    immediate_tasks =
        db.immediate_tasks ++ record { task_sequence = db.next_immediate; row = row } ∷ [];
    next_immediate = suc db.next_immediate;
  },
)

-- InsertTimerTask
unfoldable pub insert_timer_task : TimerTaskRowForInsert → Tx Done
insert_timer_task row e db = ok (
  tt,
  record db {
    timer_tasks = db.timer_tasks ++ record { task_sequence = db.next_timer; row = row } ∷ [];
    next_timer = suc db.next_timer;
  },
)

abbrev pub is_immediate : ℕ → ℕ → ImmediateTaskRow → Bool
is_immediate shard seq t = t.shard_id == shard && t.task_sequence == seq

abbrev pub is_timer : ℕ → ℕ → ℕ → TimerTaskRow → Bool
is_timer shard fire seq t =
    t.shard_id == shard && (t.fire_time_unix_seconds == fire && t.task_sequence == seq)

-- The rows for which a test fails.
abbrev pub drop_if {ℓ} : {A : Type ℓ} → (A → Bool) → List A → List A
drop_if p [] = []
drop_if p (x ∷ xs) = if p x then drop_if p xs else x ∷ drop_if p xs

abbrev pub keep_if {ℓ} : {A : Type ℓ} → (A → Bool) → List A → List A
keep_if p [] = []
keep_if p (x ∷ xs) = if p x then x ∷ keep_if p xs else keep_if p xs

-- DeleteImmediateTask
unfoldable pub delete_immediate_task : ℕ → ℕ → Tx Done
delete_immediate_task shard seq e db =
    ok (tt, record db { immediate_tasks = drop_if (is_immediate shard seq) db.immediate_tasks })

-- DeleteTimerTask
unfoldable pub delete_timer_task : ℕ → ℕ → ℕ → Tx Done
delete_timer_task shard fire seq e db =
    ok (tt, record db { timer_tasks = drop_if (is_timer shard fire seq) db.timer_tasks })

-- The rows that a statement with ORDER BY gives: sorted by insertion.
unfoldable pub insert_by {ℓ} : {A : Type ℓ} → (A → A → Bool) → A → List A → List A
insert_by le x [] = x ∷ []
insert_by le x (y ∷ ys) = if le x y then x ∷ y ∷ ys else y ∷ insert_by le x ys

unfoldable pub sort_by {ℓ} : {A : Type ℓ} → (A → A → Bool) → List A → List A
unfolding insert_by
sort_by le [] = []
sort_by le (x ∷ xs) = insert_by le x (sort_by le xs)

abbrev pub immediate_le : ImmediateTaskRow → ImmediateTaskRow → Bool
immediate_le a b = leb a.task_sequence b.task_sequence

-- ORDER BY fire_time_unix_seconds, task_sequence
abbrev pub timer_le : TimerTaskRow → TimerTaskRow → Bool
timer_le a b =
    if a.fire_time_unix_seconds == b.fire_time_unix_seconds
    then leb a.task_sequence b.task_sequence
    else leb a.fire_time_unix_seconds b.fire_time_unix_seconds

-- BatchSelectImmediateTasks
unfoldable pub batch_select_immediate_tasks : Db → ℕ → ℕ → ℕ → List ImmediateTaskRow
unfolding sort_by
batch_select_immediate_tasks db shard start page_size = take page_size (
    sort_by immediate_le
      (keep_if (λ t. t.shard_id == shard && leb start t.task_sequence) db.immediate_tasks))

-- BatchDeleteImmediateTask
unfoldable pub batch_delete_immediate_task : ℕ → ℕ → ℕ → Db → Db
batch_delete_immediate_task shard min_sequence max_sequence db = record db {
  immediate_tasks =
      drop_if
        (λ t.
          t.shard_id == shard
          && (leb min_sequence t.task_sequence && leb t.task_sequence max_sequence))
        db.immediate_tasks;
}

-- BatchSelectTimerTasks
unfoldable pub batch_select_timer_tasks : Db → ℕ → ℕ → ℕ → List TimerTaskRow
unfolding sort_by
batch_select_timer_tasks db shard max_fire page_size = take page_size (
    sort_by timer_le
      (keep_if (λ t. t.shard_id == shard && leb t.fire_time_unix_seconds max_fire) db.timer_tasks))

abbrev pub member : ℕ → List ℕ → Bool
member n [] = false
member n (x ∷ xs) = if n == x then true else member n xs

-- SelectTimerTasksForTimestamps
unfoldable pub select_timer_tasks_for_timestamps : Db → ℕ → List ℕ → ℕ → List TimerTaskRow
unfolding sort_by
select_timer_tasks_for_timestamps db shard fires min_sequence = sort_by timer_le (
    keep_if
      (λ t.
        t.shard_id == shard
        && (member t.fire_time_unix_seconds fires && leb min_sequence t.task_sequence))
      db.timer_tasks)
