-- ===== src/Process/Pages/Ranges.antt =====
-- createGetTimerTaskResponse of persistence/process/common.go: the ranges of a
-- page hold all of its tasks.
use xdb.Prelude.{
  ℕ, ◌≤◌, ◌^◌, ◌-◌, arith, List, [], ◌∷◌, Option, none, some, ◌≡◌, refl, sym, ◌∙◌, subst,
  if◌then◌else◌, ltb, leb, ◌==◌, ◌&&◌, All, Bool-cases, inl, inr,
}
use xdb.Database.Rows.{Db, TimerTaskRow}
use xdb.Database.Tasks.{batch_select_timer_tasks, keep_if, timer_le}
use xdb.Database.Tasks.Sorting.{
  IsSorted, sort_by-IsSorted, take-IsSorted, timer_le-true, timer_le-false,
}
use xdb.Process.Pages.{
  GetTimerTasksResponse, min_sequence, larger, max_sequence, or_zero, last_fire,
  create_get_timer_task_response, get_timer_tasks_up_to_timestamp,
}

min_sequence-≤ : (m : ℕ) (ts : List TimerTaskRow) → min_sequence m ts ≤ m
unfolding min_sequence
min_sequence-≤ m [] = omega arith
min_sequence-≤ m (t ∷ ts) = elim (Bool-cases (ltb t.task_sequence m)) [
  | inl below ↦ rw below (let k = min_sequence-≤ t.task_sequence ts in ground (arith, k, below))
  | inr above ↦ rw above (min_sequence-≤ m ts)
]

min_sequence-cons :
    (m : ℕ) (t : TimerTaskRow) (ts : List TimerTaskRow)
    → min_sequence m (t ∷ ts)
      ≡ (if ltb t.task_sequence m then min_sequence t.task_sequence ts else min_sequence m ts)
unfolding min_sequence
min_sequence-cons m t ts = refl

min_sequence-All :
    (m : ℕ) (ts : List TimerTaskRow) → All (λ t. min_sequence m ts ≤ t.task_sequence) ts
min_sequence-All m [] = tt
min_sequence-All m (t ∷ ts) = elim (Bool-cases (ltb t.task_sequence m)) [
  | inl below ↦
      subst (λ x. All (λ u. x ≤ u.task_sequence) (t ∷ ts))
        (sym (min_sequence-cons m t ts ∙ rw below refl))
        (min_sequence-≤ t.task_sequence ts, min_sequence-All t.task_sequence ts)
  | inr above ↦
      subst (λ x. All (λ u. x ≤ u.task_sequence) (t ∷ ts))
        (sym (min_sequence-cons m t ts ∙ rw above refl))
        (let k = min_sequence-≤ m ts in ground (arith, k, above), min_sequence-All m ts)
]

-- The largest so far is at most the largest of all.
max_sequence-≤ : (m : ℕ) (ts : List TimerTaskRow) → m ≤ or_zero (max_sequence (some m) ts)
unfolding max_sequence
max_sequence-≤ m [] = omega arith
max_sequence-≤ m (t ∷ ts) =
    let k = max_sequence-≤ (larger (some m) t.task_sequence) ts in
    elim (Bool-cases (ltb m t.task_sequence)) [
      | inl below ↦ ground (arith, k, below)
      | inr above ↦ ground (arith, k, above)
    ]

max_sequence-All :
    (m : Option ℕ) (ts : List TimerTaskRow)
    → All (λ t. t.task_sequence ≤ or_zero (max_sequence m ts)) ts
unfolding max_sequence
max_sequence-All m [] = tt
max_sequence-All none (t ∷ ts) =
    (max_sequence-≤ t.task_sequence ts, max_sequence-All (some t.task_sequence) ts)
max_sequence-All (some m) (t ∷ ts) = (
  let k = max_sequence-≤ (larger (some m) t.task_sequence) ts in ground (arith, k),
  max_sequence-All (some (larger (some m) t.task_sequence)) ts,
)

last_fire-≥ :
    (t : TimerTaskRow) (ts : List TimerTaskRow)
    → IsSorted (λ u. u.fire_time_unix_seconds) (t ∷ ts)
    → All (λ u. u.fire_time_unix_seconds ≤ last_fire t ts) (t ∷ ts)
last_fire-≥ t [] h = (omega arith, tt)
last_fire-≥ t (u ∷ us) ((below, _), h) =
    let k = last_fire-≥ u us h in ((let w = k.0 in omega arith), k)

-- The task is within the ranges of the response.
abbrev pub IsWithin : GetTimerTasksResponse → TimerTaskRow → Type 0
IsWithin resp t =
    (resp.min_fire_timestamp_seconds_inclusive ≤ t.fire_time_unix_seconds)
    × (t.fire_time_unix_seconds ≤ resp.max_fire_timestamp_seconds_inclusive)
    × (resp.min_sequence_inclusive ≤ t.task_sequence)
    × (t.task_sequence ≤ resp.max_sequence_inclusive)

All-zip4 :
    (A B C D : TimerTaskRow → Type 0) (ts : List TimerTaskRow)
    → All A ts
    → All B ts
    → All C ts
    → All D ts
    → All (λ t. A t × B t × C t × D t) ts
All-zip4 A B C D [] a b c d = tt
All-zip4 A B C D (t ∷ ts) a b c d = ((a.0, b.0, c.0, d.0), All-zip4 A B C D ts a.1 b.1 c.1 d.1)

-- Every task of a page of tasks in the order of their fire times is within the page's ranges.
pub create_get_timer_task_response-IsWithin :
    (ts : List TimerTaskRow) (size : Option ℕ)
    → IsSorted (λ u. u.fire_time_unix_seconds) ts
    → All
        (IsWithin (create_get_timer_task_response ts size))
        (create_get_timer_task_response ts size).tasks
unfolding create_get_timer_task_response
create_get_timer_task_response-IsWithin [] size h = tt
create_get_timer_task_response-IsWithin (t ∷ ts) size h =
    All-zip4 (λ u. t.fire_time_unix_seconds ≤ u.fire_time_unix_seconds)
      (λ u. u.fire_time_unix_seconds ≤ last_fire t ts)
      (λ u. min_sequence (2 ^ 63 - 1) (t ∷ ts) ≤ u.task_sequence)
      (λ u. u.task_sequence ≤ or_zero (max_sequence none (t ∷ ts))) (t ∷ ts) (omega arith, h.0)
      (last_fire-≥ t ts h) (min_sequence-All (2 ^ 63 - 1) (t ∷ ts)) (max_sequence-All none (t ∷ ts))

-- The statement of the database gives such a page.
pub get_timer_tasks_up_to_timestamp-IsWithin :
    (db : Db) (shard max_fire page_size : ℕ)
    → let resp = get_timer_tasks_up_to_timestamp db shard max_fire page_size in
      All (IsWithin resp) resp.tasks
unfolding get_timer_tasks_up_to_timestamp batch_select_timer_tasks
get_timer_tasks_up_to_timestamp-IsWithin db shard max_fire page_size =
    create_get_timer_task_response-IsWithin _ (some page_size) (
      take-IsSorted (λ u. u.fire_time_unix_seconds) page_size _
        (sort_by-IsSorted (λ u. u.fire_time_unix_seconds) timer_le timer_le-true timer_le-false
          (keep_if (λ t. t.shard_id == shard && leb t.fire_time_unix_seconds max_fire)
            db.timer_tasks)))
