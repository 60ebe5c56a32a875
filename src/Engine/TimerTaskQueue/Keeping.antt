-- ===== src/Engine/TimerTaskQueue/Keeping.antt =====
-- What the handlers of timerTaskQueueImpl, engine/timer_task_queue.go, and the steps of its gates
-- keep: gates that are set for all that is loaded and requested.
use xdb.Prelude.{
  ℕ, suc, ◌+◌, arith, Bool, true, false, not, ◌||◌, List, [], ◌∷◌, Option, some, ok, ◌≡◌, refl,
  subst, length, leb, All-map, Bool-cases, inl, inr, map,
}
use xdb.Prelude.Maps.{is_empty}
use xdb.Database.Rows.{Db, TimerTaskRow}
use xdb.Process.Pages.{GetTimerTasksResponse, get_timer_tasks_for_timestamps}
use xdb.Engine.TimerGate.{TimerGate, receive}
use xdb.Engine.TimerGate.Alarm.{
  IsSound, wakes_by, step, step-IsSound, step-wakes_by, clock_expires, relays,
}
use xdb.Engine.TimerHeap.{HeapPackage}
use xdb.Engine.TimerNotifications.{NotifyTimerTasksRequest, max_int64}
use xdb.Engine.TimerTaskQueue.{
  TimerTaskQueue, from_unix, drain_all_notify_requests, triggered_polling, polled, push_all,
  update_if_earlier,
}
use xdb.Engine.TimerTaskQueue.Firing.{All-is_empty}
use xdb.Engine.TimerTaskQueue.Waking.{
  Awaits, drain_all_notify_requests-Awaits, update_if_earlier-IsSound,
}
use xdb.Engine.TimerTaskQueue.Loading.{
  push_all-is_heap, length-push_all, poll-WakesForAll, get_timer_tasks_for_timestamps-IsLeastFire,
  IsLeastFire,
}
use xdb.Engine.TimerTaskQueue.Running.{will_wake, IsWatched, goes_on}

-- The steps of the clock and of the goroutine of a gate.
pub data GateStep : Type 0 where
  clock_step goroutine_step : GateStep

abbrev pub gate_step : GateStep → TimerGate → TimerGate
gate_step clock_step g = step g clock_expires
gate_step goroutine_step g = step g relays

pub gate_step-IsSound : (e : GateStep) (g : TimerGate) → IsSound g → IsSound (gate_step e g)
gate_step-IsSound clock_step g s = step-IsSound g clock_expires s
gate_step-IsSound goroutine_step g s = step-IsSound g relays s

pub gate_step-wakes_by :
    (e : GateStep) (g : TimerGate) (t : ℕ)
    → IsSound g
    → wakes_by g t ≡ true
    → wakes_by (gate_step e g) t ≡ true
gate_step-wakes_by clock_step g t s h = step-wakes_by g clock_expires t s refl h
gate_step-wakes_by goroutine_step g t s h = step-wakes_by g relays t s refl h

gate_step-will_wake :
    (e : GateStep) (g : TimerGate) → will_wake g ≡ true → will_wake (gate_step e g) ≡ true
gate_step-will_wake clock_step g h = ground arith
gate_step-will_wake goroutine_step g h = ground arith

pub gate_step-Awaits :
    (e : GateStep) (g : TimerGate) (reqs : List NotifyTimerTasksRequest)
    → IsSound g
    → Awaits g reqs
    → Awaits (gate_step e g) reqs
gate_step-Awaits e g reqs s h =
    All-map _ _ reqs
      (λ r k.
        All-map _ _ r.fire_timestamps
          (λ ts w. elim (Bool-cases (leb max_int64 ts)) [
            | inl big ↦ rw big refl
            | inr small ↦ rw small (
                gate_step-wakes_by e g (from_unix ts) s
                  (subst (λ (b : Bool). (b || wakes_by g (from_unix ts)) ≡ true) small w))
          ])
          k)
      h

-- A queue that is set and goes on.
pub record IsAwake (hp : HeapPackage) (q : TimerTaskQueue) : Type 0 where
  pub set : IsWatched hp q
  pub on : goes_on q ≡ true

or-right : (b c : Bool) → c ≡ true → (b || c) ≡ true
or-right true c h = refl
or-right false c h = h

not_empty : (xs : List TimerTaskRow) (n : ℕ) → length xs ≡ suc n → not (is_empty xs) ≡ true
not_empty [] n e = absurd (omega (arith, e))
not_empty (x ∷ xs) n e = refl

polled_goes_on :
    (hp : HeapPackage) (b : Bool) (h ts : List TimerTaskRow)
    → is_empty ts ≡ false
    → (b || not (is_empty (push_all hp h ts))) ≡ true
polled_goes_on hp b h [] e = absurd (cc e)
polled_goes_on hp b h (t ∷ ts) e = or-right b _ (
    not_empty (push_all hp h (t ∷ ts)) (length ts + length h)
      (omega (arith, length-push_all hp (t ∷ ts) h)))

-- The queue with the tasks of an answer.
abbrev polled_queue : HeapPackage → TimerTaskQueue → GetTimerTasksResponse → TimerTaskQueue
polled_queue hp q resp = record q {
  curr_max_loaded_task_sequence = resp.max_sequence_inclusive;
  remaining_to_fire_timers_heap = push_all hp q.remaining_to_fire_timers_heap resp.tasks;
  next_firing_timer =
      update_if_earlier q.next_firing_timer (from_unix resp.min_fire_timestamp_seconds_inclusive);
}

polled_lem :
    (hp : HeapPackage) (q : TimerTaskQueue) (resp : GetTimerTasksResponse)
    → IsLeastFire resp
    → IsAwake hp q
    → (q' : TimerTaskQueue) × (polled hp q (ok resp) ≡ ok q') × IsAwake hp q'
unfolding polled
polled_lem hp q resp least a = elim (Bool-cases (is_empty resp.tasks)) [
  | inl nothing ↦ (q, rw nothing refl, a)
  | inr more ↦ (
    polled_queue hp q resp,
    rw more refl,
    record {
      set = record {
        preload_sound = a.set.preload_sound;
        firing_sound = update_if_earlier-IsSound q.next_firing_timer _ a.set.firing_sound;
        trigger_sound = a.set.trigger_sound;
        ordered = push_all-is_heap hp resp.tasks q.remaining_to_fire_timers_heap a.set.ordered;
        timers =
            poll-WakesForAll hp q.next_firing_timer resp q.remaining_to_fire_timers_heap
              a.set.firing_sound least a.set.timers;
        requests = a.set.requests;
      };
      on =
          polled_goes_on hp (will_wake q.next_preload_timer) q.remaining_to_fire_timers_heap
            resp.tasks more;
    },
  )
]

pub trigger_lem :
    (hp : HeapPackage) (db : Db) (shard : ℕ) (q : TimerTaskQueue)
    → IsAwake hp q
    → (q' : TimerTaskQueue) × (triggered_polling hp
          (λ reqs from. ok (get_timer_tasks_for_timestamps db shard reqs from))
          (record q { trigger_poll_timer = receive q.trigger_poll_timer })
        ≡ ok q')
      × IsAwake hp q'
unfolding triggered_polling
trigger_lem hp db shard q a =
    let set : (reqs : List NotifyTimerTasksRequest)
        → Awaits (receive q.trigger_poll_timer) reqs
        → IsAwake hp (record q {
          trigger_poll_timer = receive q.trigger_poll_timer;
          current_notify_requests = reqs;
        }) =
      λ reqs w. record {
        set = record {
          preload_sound = a.set.preload_sound;
          firing_sound = a.set.firing_sound;
          trigger_sound = a.set.trigger_sound;
          ordered = a.set.ordered;
          timers = a.set.timers;
          requests = w;
        };
        on = a.on;
      } in
    elim (Bool-cases (is_empty q.current_notify_requests)) [
      | inl nothing ↦ (
        _,
        rw nothing refl,
        set q.current_notify_requests (All-is_empty _ q.current_notify_requests nothing),
      )
      | inr more ↦
          let (q', ran, awake) =
            polled_lem hp _
              (get_timer_tasks_for_timestamps db shard
                (map (λ r. r.fire_timestamps) q.current_notify_requests)
                (q.curr_max_loaded_task_sequence + 1))
              (get_timer_tasks_for_timestamps-IsLeastFire db shard _ _) (set [] tt) in
          (q', rw more ran, awake)
    ]

pub gate_step-goes_on :
    (e : GateStep) (g : TimerGate) (c : Bool)
    → (will_wake g || c) ≡ true
    → (will_wake (gate_step e g) || c) ≡ true
gate_step-goes_on e g c h = elim (Bool-cases (will_wake g)) [
  | inl wakes ↦ rw (gate_step-will_wake e g wakes) refl
  | inr sleeps ↦
      or-right (will_wake (gate_step e g)) c (subst (λ (b : Bool). (b || c) ≡ true) sleeps h)
]

pub some_pair :
    {A B : Type 0} {a a' : A} {b b' : B}
    → ◌≡◌ {A = Option (A × B)} (some (a, b)) (some (a', b'))
    → b ≡ b'
some_pair e = cc e

pub drain_lem :
    (hp : HeapPackage) (q : TimerTaskQueue) (req : NotifyTimerTasksRequest)
    (others : List NotifyTimerTasksRequest)
    → IsAwake hp q
    → IsAwake hp
        (drain_all_notify_requests (some req) (record q { triggered_polling_chan = others }))
drain_lem hp q req others a =
    let (sound, awaits) =
      drain_all_notify_requests-Awaits (some req) (record q { triggered_polling_chan = others })
        a.set.trigger_sound a.set.requests in
    unfold drain_all_notify_requests in
    record {
      set = record {
        preload_sound = a.set.preload_sound;
        firing_sound = a.set.firing_sound;
        trigger_sound = sound;
        ordered = a.set.ordered;
        timers = a.set.timers;
        requests = awaits;
      };
      on = a.on;
    }
