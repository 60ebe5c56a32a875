-- ===== src/Engine/TimerTaskQueue/Steps.antt =====
-- The loop in Start of timerTaskQueueImpl, engine/timer_task_queue.go, as a step relation: the
-- handlers, notifications from other goroutines, and the clock and goroutine of each gate, in any
-- order. The store is the tables, which may change between the steps.
use xdb.Prelude.{
  ℕ, ◌≤◌, true, List, [], ◌∷◌, ◌++◌, some, ok, ok-injective, ◌≡◌, refl, sym, ◌∙◌, subst, All-map,
}
use xdb.Database.Rows.{Db, TimerTaskRow}
use xdb.Process.Pages.{get_timer_tasks_for_timestamps}
use xdb.Engine.TimerGate.{receive, update}
use xdb.Engine.TimerHeap.{HeapPackage}
use xdb.Engine.TimerNotifications.{NotifyTimerTasksRequest}
use xdb.Engine.TimerTaskQueue.{
  TimerTaskQueue, from_unix, drain_all_notify_requests, load_if,
  send_all_fired_timer_tasks_to_processor, triggered_polling, new_timer_task_queue,
}
use xdb.Engine.TimerTaskQueue.Firing.{send_all_fired_timer_tasks_to_processor-splits}
use xdb.Engine.TimerTaskQueue.Keeping.{
  GateStep, IsAwake, drain_lem, gate_step, gate_step-Awaits, gate_step-IsSound, gate_step-goes_on,
  gate_step-wakes_by, some_pair, trigger_lem,
}
use xdb.Engine.TimerTaskQueue.Running.{IsWatched, load_env, load_if_lem}

-- A case of the select takes its signal or request first.
pub data Step (hp : HeapPackage) (q q' : TimerTaskQueue) : Type 0 where
  preload_gate :
      (e : GateStep)
      → q' ≡ record q { next_preload_timer = gate_step e q.next_preload_timer }
      → Step hp q q'
  firing_gate :
      (e : GateStep)
      → q' ≡ record q { next_firing_timer = gate_step e q.next_firing_timer }
      → Step hp q q'
  trigger_gate :
      (e : GateStep)
      → q' ≡ record q { trigger_poll_timer = gate_step e q.trigger_poll_timer }
      → Step hp q q'
  notified :
      (req : NotifyTimerTasksRequest)
      → q' ≡ record q { triggered_polling_chan = q.triggered_polling_chan ++ req ∷ [] }
      → Step hp q q'
  preload_fires :
      (db : Db) (shard page now look_ahead jitter : ℕ)
      → q.next_preload_timer.signalled ≡ true
      → load_if hp
          (load_env hp db shard page now look_ahead jitter)
          (record q { next_preload_timer = receive q.next_preload_timer })
        ≡ ok q'
      → Step hp q q'
  firing_fires :
      (db : Db) (shard page now look_ahead jitter : ℕ) (readings : ℕ → ℕ)
      (mono : (a b : ℕ) → a ≤ b → readings a ≤ readings b) (sent : List TimerTaskRow)
      (between : TimerTaskQueue)
      → q.next_firing_timer.signalled ≡ true
      → send_all_fired_timer_tasks_to_processor hp readings
          (record q { next_firing_timer = receive q.next_firing_timer })
        ≡ some (sent, between)
      → load_if hp (load_env hp db shard page now look_ahead jitter) between ≡ ok q'
      → Step hp q q'
  request_comes :
      (req : NotifyTimerTasksRequest) (others : List NotifyTimerTasksRequest)
      → q.triggered_polling_chan ≡ req ∷ others
      → q' ≡ drain_all_notify_requests (some req) (record q { triggered_polling_chan = others })
      → Step hp q q'
  trigger_fires :
      (db : Db) (shard : ℕ)
      → q.trigger_poll_timer.signalled ≡ true
      → triggered_polling hp
          (λ reqs from. ok (get_timer_tasks_for_timestamps db shard reqs from))
          (record q { trigger_poll_timer = receive q.trigger_poll_timer })
        ≡ ok q'
      → Step hp q q'

pub data Reach (hp : HeapPackage) (q : TimerTaskQueue) : TimerTaskQueue → Type 0 where
  here : Reach hp q q
  next : {r t : TimerTaskQueue} → Reach hp q r → Step hp r t → Reach hp q t

-- Start sets the preload gate.
abbrev pub start : ℕ → TimerTaskQueue
start now = record new_timer_task_queue {
  next_preload_timer = (update new_timer_task_queue.next_preload_timer now).0;
}

-- Each step keeps the queue awake.
Step-IsAwake :
    (hp : HeapPackage) (q q' : TimerTaskQueue) → Step hp q q' → IsAwake hp q → IsAwake hp q'
Step-IsAwake hp q q' (preload_gate e same) a = subst (IsAwake hp) (sym same) (record {
  set = record {
    preload_sound = gate_step-IsSound e q.next_preload_timer a.set.preload_sound;
    firing_sound = a.set.firing_sound;
    trigger_sound = a.set.trigger_sound;
    ordered = a.set.ordered;
    timers = a.set.timers;
    requests = a.set.requests;
  };
  on = gate_step-goes_on e q.next_preload_timer _ a.on;
})
Step-IsAwake hp q q' (firing_gate e same) a = subst (IsAwake hp) (sym same) (record {
  set = record {
    preload_sound = a.set.preload_sound;
    firing_sound = gate_step-IsSound e q.next_firing_timer a.set.firing_sound;
    trigger_sound = a.set.trigger_sound;
    ordered = a.set.ordered;
    timers =
        All-map _ _ q.remaining_to_fire_timers_heap
          (λ t k.
            gate_step-wakes_by e q.next_firing_timer (from_unix t.fire_time_unix_seconds)
              a.set.firing_sound k)
          a.set.timers;
    requests = a.set.requests;
  };
  on = a.on;
})
Step-IsAwake hp q q' (trigger_gate e same) a = subst (IsAwake hp) (sym same) (record {
  set = record {
    preload_sound = a.set.preload_sound;
    firing_sound = a.set.firing_sound;
    trigger_sound = gate_step-IsSound e q.trigger_poll_timer a.set.trigger_sound;
    ordered = a.set.ordered;
    timers = a.set.timers;
    requests =
        gate_step-Awaits e q.trigger_poll_timer q.current_notify_requests a.set.trigger_sound
          a.set.requests;
  };
  on = a.on;
})
Step-IsAwake hp q q' (notified req same) a = subst (IsAwake hp) (sym same) (record {
  set = record {
    preload_sound = a.set.preload_sound;
    firing_sound = a.set.firing_sound;
    trigger_sound = a.set.trigger_sound;
    ordered = a.set.ordered;
    timers = a.set.timers;
    requests = a.set.requests;
  };
  on = a.on;
})
Step-IsAwake hp q q' (preload_fires db shard page now look_ahead jitter signal ran) a =
    let (r, ran', set, on) = load_if_lem hp db shard page now look_ahead jitter _ (record {
      preload_sound = a.set.preload_sound;
      firing_sound = a.set.firing_sound;
      trigger_sound = a.set.trigger_sound;
      ordered = a.set.ordered;
      timers = a.set.timers;
      requests = a.set.requests;
    }) in
    subst (IsAwake hp) (ok-injective (sym ran' ∙ ran)) (record { set = set; on = on })
Step-IsAwake hp q q'
      (firing_fires db shard page now look_ahead jitter readings mono sent between signal ran
        loaded)
      a =
    let (sent', rest, g', k, ran', split) =
      send_all_fired_timer_tasks_to_processor-splits hp readings
        (record q { next_firing_timer = receive q.next_firing_timer }) mono a.set.ordered in
    let same = some_pair (sym ran' ∙ ran) in
    let set : IsWatched hp between = subst (IsWatched hp) same (record {
      preload_sound = a.set.preload_sound;
      firing_sound = split.sound a.set.firing_sound;
      trigger_sound = a.set.trigger_sound;
      ordered = split.ordered;
      timers = split.wakes;
      requests = a.set.requests;
    }) in
    let (r, ran2, set2, on2) = load_if_lem hp db shard page now look_ahead jitter between set in
    subst (IsAwake hp) (ok-injective (sym ran2 ∙ loaded)) (record { set = set2; on = on2 })
Step-IsAwake hp q q' (request_comes req others chan same) a =
    subst (IsAwake hp) (sym same) (drain_lem hp q req others a)
Step-IsAwake hp q q' (trigger_fires db shard signal ran) a =
    let (r, ran', awake) = trigger_lem hp db shard q a in
    subst (IsAwake hp) (ok-injective (sym ran' ∙ ran)) awake

-- However its steps interleave, the queue that Start makes never sleeps over a timer: each loaded
-- timer has the firing gate set for no later than its time, each request that waits has the trigger
-- gate set, and the queue goes on to load the next window, as long as the store answers.
pub Reach-IsAwake :
    (hp : HeapPackage) (now : ℕ) (q : TimerTaskQueue) → Reach hp (start now) q → IsAwake hp q
Reach-IsAwake hp now q here = record {
  set = record {
    preload_sound = refl;
    firing_sound = refl;
    trigger_sound = refl;
    ordered = hp.nil-is_heap;
    timers = tt;
    requests = tt;
  };
  on = refl;
}
Reach-IsAwake hp now q (next {r} reach st) = Step-IsAwake hp r q st (Reach-IsAwake hp now r reach)
