-- ===== src/Engine/TimerTaskQueue/Loading.antt =====
-- loadAndDispatchAndPrepareNext and triggeredPolling of engine/timer_task_queue.go: the heap and the
-- firing gate after tasks are loaded.
use xdb.Prelude.{
  ℕ, ◌+◌, ◌≤◌, arith, true, ◌&&◌, List, [], ◌∷◌, Option, none, ◌≡◌, leb, ◌==◌, length, All, All-map,
  Bool-cases, inl, inr,
}
use xdb.Prelude.Maps.{is_empty}
use xdb.Database.Rows.{Db, TimerTaskRow}
use xdb.Database.Tasks.{select_timer_tasks_for_timestamps, timer_le, keep_if, member}
use xdb.Database.Tasks.Sorting.{IsSorted, sort_by-IsSorted, timer_le-true, timer_le-false}
use xdb.Process.Pages.{
  GetTimerTasksResponse, get_timer_tasks_for_timestamps, create_get_timer_task_response,
  all_timestamps,
}
use xdb.Engine.TimerGate.{TimerGate, update}
use xdb.Engine.TimerGate.Alarm.{IsSound, update-IsSound, update-wakes_by}
use xdb.Engine.TimerHeap.{HeapPackage, All-SameItems}
use xdb.Engine.TimerTaskQueue.{
  from_unix, fire_at_first, loaded_heap, loaded_firing, push_all, update_if_earlier,
}
use xdb.Engine.TimerTaskQueue.Firing.{wakes_for, wakes_by_later, heap-wakes_for, length-SameItems}
use xdb.Engine.TimerTaskQueue.Waking.{update_if_earlier-wakes_by, update_if_earlier-wakes_by_other}

-- The gate is set for each task.
abbrev pub WakesForAll : TimerGate → List TimerTaskRow → Type 0
WakesForAll g h = All (λ t. wakes_for g t ≡ true) h

fire_at_first-IsSound :
    (g : TimerGate) (h : List TimerTaskRow) → IsSound g → IsSound (fire_at_first g h)
fire_at_first-IsSound g [] s = s
fire_at_first-IsSound g (t ∷ h) s = update-IsSound g (from_unix t.fire_time_unix_seconds)

module _ (hp : HeapPackage) where
  fire_at_first-WakesForAll :
      (g : TimerGate) (h : List TimerTaskRow)
      → hp.is_heap h ≡ true
      → WakesForAll (fire_at_first g h) h
  fire_at_first-WakesForAll g [] e = tt
  fire_at_first-WakesForAll g (t ∷ h) e =
      let at = from_unix t.fire_time_unix_seconds in
      heap-wakes_for hp (update g at).0 t h e (update-wakes_by g at)

  pub loaded_lem :
      (resp : GetTimerTasksResponse) (g : TimerGate) (h : List TimerTaskRow)
      → IsSound g
      → hp.is_heap h ≡ true
      → WakesForAll g h
      → IsSound (loaded_firing hp resp g)
        × (hp.is_heap (loaded_heap hp resp h) ≡ true)
        × WakesForAll (loaded_firing hp resp g) (loaded_heap hp resp h)
  loaded_lem resp g h s e w = elim (Bool-cases (is_empty resp.tasks)) [
    | inl nothing ↦ rw nothing (s, e, w)
    | inr more ↦ rw more (
      fire_at_first-IsSound g (hp.init resp.tasks) s,
      hp.init-is_heap resp.tasks,
      fire_at_first-WakesForAll g (hp.init resp.tasks) (hp.init-is_heap resp.tasks),
    )
  ]

  pub push_all-is_heap :
      (ts h : List TimerTaskRow) → hp.is_heap h ≡ true → hp.is_heap (push_all hp h ts) ≡ true
  unfolding push_all
  push_all-is_heap [] h e = e
  push_all-is_heap (t ∷ ts) h e = push_all-is_heap ts (hp.push h t) (hp.push-is_heap h t e)

  pub push_all-WakesForAll :
      (g : TimerGate) (ts h : List TimerTaskRow)
      → WakesForAll g h
      → WakesForAll g ts
      → WakesForAll g (push_all hp h ts)
  unfolding push_all
  push_all-WakesForAll g [] h w k = w
  push_all-WakesForAll g (t ∷ ts) h w k =
      push_all-WakesForAll g ts (hp.push h t)
        (All-SameItems (wakes_for g) (hp.push h t) (t ∷ h) (hp.push_same h t) (k.0, w)) k.1

  pub length-push_all :
      (ts h : List TimerTaskRow) → length (push_all hp h ts) ≡ length ts + length h
  unfolding push_all
  length-push_all [] h = omega arith
  length-push_all (t ∷ ts) h = omega (
    arith,
    length-push_all ts (hp.push h t),
    length-SameItems (hp.push h t) (t ∷ h) (hp.push_same h t),
  )

-- The smallest fire time of an answer is at most the fire times of its tasks.
abbrev pub IsLeastFire : GetTimerTasksResponse → Type 0
IsLeastFire resp =
    All (λ t. resp.min_fire_timestamp_seconds_inclusive ≤ t.fire_time_unix_seconds) resp.tasks

create-IsLeastFire :
    (ts : List TimerTaskRow) (size : Option ℕ)
    → IsSorted (λ t. t.fire_time_unix_seconds) ts
    → IsLeastFire (create_get_timer_task_response ts size)
unfolding create_get_timer_task_response
create-IsLeastFire [] size s = tt
create-IsLeastFire (t ∷ ts) size s = (omega arith, s.0)

pub get_timer_tasks_for_timestamps-IsLeastFire :
    (db : Db) (shard : ℕ) (requests : List (List ℕ)) (min_seq : ℕ)
    → IsLeastFire (get_timer_tasks_for_timestamps db shard requests min_seq)
unfolding get_timer_tasks_for_timestamps select_timer_tasks_for_timestamps
get_timer_tasks_for_timestamps-IsLeastFire db shard requests min_seq = create-IsLeastFire _ none (
    sort_by-IsSorted (λ t. t.fire_time_unix_seconds) timer_le timer_le-true timer_le-false
      (keep_if
        (λ t.
          t.shard_id == shard
          && (member t.fire_time_unix_seconds (all_timestamps requests)
              && leb min_seq t.task_sequence))
        db.timer_tasks))

-- New tasks, from an answer with their least fire time, are all waited for with the old ones.
pub poll-WakesForAll :
    (hp : HeapPackage) (g : TimerGate) (resp : GetTimerTasksResponse) (h : List TimerTaskRow)
    → IsSound g
    → IsLeastFire resp
    → WakesForAll g h
    → WakesForAll
        (update_if_earlier g (from_unix resp.min_fire_timestamp_seconds_inclusive))
        (push_all hp h resp.tasks)
poll-WakesForAll hp g resp h s least w =
    let at = from_unix resp.min_fire_timestamp_seconds_inclusive in
    push_all-WakesForAll hp (update_if_earlier g at) resp.tasks h
      (All-map _ _ h
        (λ t k. update_if_earlier-wakes_by_other g at (from_unix t.fire_time_unix_seconds) s k) w)
      (All-map _ _ resp.tasks
        (λ t k.
          wakes_by_later (update_if_earlier g at) at (from_unix t.fire_time_unix_seconds)
            (omega (arith, k)) (update_if_earlier-wakes_by g at s))
        least)
