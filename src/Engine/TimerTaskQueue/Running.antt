-- ===== src/Engine/TimerTaskQueue/Running.antt =====
-- shouldLoadNextWindowBatch and loadAndDispatchAndPrepareNext of engine/timer_task_queue.go together, on the
-- tables of the store.
use xdb.Prelude.{ℕ, arith, Bool, true, false, not, ◌||◌, ok, ◌≡◌, refl, Bool-cases, inl, inr}
use xdb.Prelude.Maps.{is_empty}
use xdb.Database.Rows.{Db}
use xdb.Process.Pages.{get_timer_tasks_up_to_timestamp}
use xdb.Engine.TimerGate.{TimerGate, update, is_armed}
use xdb.Engine.TimerGate.Alarm.{IsSound, update-IsSound}
use xdb.Engine.TimerHeap.{HeapPackage}
use xdb.Engine.TimerTaskQueue.{
  TimerTaskQueue, LoadEnv, drain_all_notify_requests, should_load_next_window_batch,
  load_and_dispatch_and_prepare_next, load_if, loaded, window_end, get_next_poll_time, to_unix,
}
use xdb.Engine.TimerTaskQueue.Waking.{Awaits}
use xdb.Engine.TimerTaskQueue.Loading.{WakesForAll, loaded_lem}

-- The gate will signal, sooner or later.
abbrev pub will_wake : TimerGate → Bool
will_wake g = g.signalled || (g.expired || is_armed g.armed)

-- Every loaded timer has the firing gate set for it, every request that waits the trigger gate.
pub record IsWatched (hp : HeapPackage) (q : TimerTaskQueue) : Type 0 where
  pub preload_sound : IsSound q.next_preload_timer
  pub firing_sound : IsSound q.next_firing_timer
  pub trigger_sound : IsSound q.trigger_poll_timer
  pub ordered : hp.is_heap q.remaining_to_fire_timers_heap ≡ true
  pub timers : WakesForAll q.next_firing_timer q.remaining_to_fire_timers_heap
  pub requests : Awaits q.trigger_poll_timer q.current_notify_requests

-- The queue goes on: it will load the next window, or has timers to fire, after which it does.
abbrev pub goes_on : TimerTaskQueue → Bool
goes_on q = will_wake q.next_preload_timer || not (is_empty q.remaining_to_fire_timers_heap)

-- Where a load is not due, the queue goes on by itself.
waits-goes_on :
    (q : TimerTaskQueue)
    → IsSound q.next_preload_timer
    → should_load_next_window_batch q ≡ false
    → goes_on q ≡ true
waits-goes_on q s e = ground arith

update-will_wake : (g : TimerGate) (t : ℕ) → will_wake (update g t).0 ≡ true
update-will_wake g t = ground arith

goes_on-true : (b c : Bool) → b ≡ true → (b || c) ≡ true
goes_on-true b c h = rw h refl

module _ (hp : HeapPackage) (db : Db) (shard : ℕ) (page : ℕ) where
  -- The environment of a load that asks these tables.
  abbrev pub load_env : ℕ → ℕ → ℕ → LoadEnv
  load_env now look_ahead jitter = record {
    now = now;
    max_timer_preload_look_ahead = look_ahead;
    jitter = jitter;
    get_timer_tasks_up_to_timestamp = λ ts. ok (get_timer_tasks_up_to_timestamp db shard ts page);
  }

  load_lem :
      (now look_ahead jitter : ℕ) (q : TimerTaskQueue)
      → IsWatched hp q
      → (q' : TimerTaskQueue) × (load_and_dispatch_and_prepare_next hp
            (load_env now look_ahead jitter)
            q
          ≡ ok q')
        × IsWatched hp q'
        × (goes_on q' ≡ true)
  unfolding load_and_dispatch_and_prepare_next loaded drain_all_notify_requests
  load_lem now look_ahead jitter q s =
      let max_window_time = get_next_poll_time now look_ahead jitter in
      let resp = get_timer_tasks_up_to_timestamp db shard (to_unix max_window_time) page in
      let (firing, ordered, timers) =
        loaded_lem hp resp q.next_firing_timer q.remaining_to_fire_timers_heap s.firing_sound
          s.ordered s.timers in
      (
        _,
        refl,
        record {
          preload_sound = update-IsSound q.next_preload_timer (window_end resp max_window_time);
          firing_sound = firing;
          trigger_sound = refl;
          ordered = ordered;
          timers = timers;
          requests = tt;
        },
        goes_on-true _ _ (update-will_wake q.next_preload_timer (window_end resp max_window_time)),
      )

  -- The test and the load together leave a queue that is set and goes on.
  pub load_if_lem :
      (now look_ahead jitter : ℕ) (q : TimerTaskQueue)
      → IsWatched hp q
      → (q' : TimerTaskQueue) × (load_if hp (load_env now look_ahead jitter) q ≡ ok q')
        × IsWatched hp q'
        × (goes_on q' ≡ true)
  load_if_lem now look_ahead jitter q s = elim (Bool-cases (should_load_next_window_batch q)) [
    | inl due ↦
        let (q', ran, set, on) = load_lem now look_ahead jitter q s in (q', rw due ran, set, on)
    | inr early ↦ (q, rw early refl, s, waits-goes_on q s.preload_sound early)
  ]
