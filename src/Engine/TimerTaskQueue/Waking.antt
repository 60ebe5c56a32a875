-- ===== src/Engine/TimerTaskQueue/Waking.antt =====
-- The gates of timerTaskQueueImpl, engine/timer_task_queue.go, after drainAllNotifyRequests,
-- loadAndDispatchAndPrepareNext and triggeredPolling.
use xdb.Prelude.{
  ℕ, ◌≤◌, arith, Bool, true, false, ◌&&◌, ◌||◌, List, [], ◌∷◌, Option, ◌≡◌, refl, subst,
  if◌then◌else◌, leb, ltb, ◌==◌, All, All-map, All-append, Bool-cases, inl, inr,
}
use xdb.Engine.TimerGate.{TimerGate, inactive_or_fire_after}
use xdb.Engine.TimerGate.Alarm.{
  wakes_by, IsSound, update-IsSound, update-wakes_by, update-wakes_by_other, active-wakes_by,
}
use xdb.Engine.TimerNotifications.{
  NotifyTimerTasksRequest, max_int64, filter_timestamps, filter_notify_request, filter_all,
  append_if, request_of, first_and,
}
use xdb.Engine.TimerTaskQueue.{
  TimerTaskQueue, from_unix, update_if_earlier, drain_all_notify_requests,
}
use xdb.Engine.TimerTaskQueue.Firing.{wakes_by_later}

pub update_if_earlier-IsSound :
    (g : TimerGate) (t : ℕ) → IsSound g → IsSound (update_if_earlier g t)
update_if_earlier-IsSound g t s = elim (Bool-cases (inactive_or_fire_after g t)) [
  | inl later ↦ rw later (update-IsSound g t)
  | inr sooner ↦ rw sooner s
]

pub update_if_earlier-wakes_by :
    (g : TimerGate) (t : ℕ) → IsSound g → wakes_by (update_if_earlier g t) t ≡ true
update_if_earlier-wakes_by g t s = elim (Bool-cases (inactive_or_fire_after g t)) [
  | inl later ↦ rw later (update-wakes_by g t)
  | inr sooner ↦ rw sooner (active-wakes_by g t s sooner)
]

pub update_if_earlier-wakes_by_other :
    (g : TimerGate) (t u : ℕ)
    → IsSound g
    → wakes_by g u ≡ true
    → wakes_by (update_if_earlier g t) u ≡ true
update_if_earlier-wakes_by_other g t u s w = elim (Bool-cases (inactive_or_fire_after g t)) [
  | inl later ↦ rw later (update-wakes_by_other g t u s w)
  | inr sooner ↦ rw sooner w
]

abbrev AtLeast : List ℕ × ℕ → ℕ → Type 0
AtLeast kept smallest = (kept.1 ≤ smallest) × All (λ ts. kept.1 ≤ ts) kept.0

filter_step :
    (b : Bool) (ts smallest : ℕ) (rest : List ℕ × ℕ)
    → AtLeast rest (if b && ltb ts smallest then ts else smallest)
    → AtLeast (if b then (ts ∷ rest.0, rest.1) else rest) smallest
filter_step true ts smallest rest h =
    let below = h.0 in (ground (arith, below), (ground (arith, below), h.1))
filter_step false ts smallest rest h = h

-- The smallest timestamp that a filter answers is at most those that it keeps.
filter_timestamps-AtLeast :
    (window : ℕ) (tss : List ℕ) (smallest : ℕ)
    → AtLeast (filter_timestamps window tss smallest) smallest
unfolding filter_timestamps
filter_timestamps-AtLeast window [] smallest = (omega arith, tt)
filter_timestamps-AtLeast window (ts ∷ more) smallest =
    filter_step (leb ts window) ts smallest _ (filter_timestamps-AtLeast window more _)

-- `P` holds of each timestamp of the requests.
abbrev pub AllTimestamps : (ℕ → Type 0) → List NotifyTimerTasksRequest → Type 0
AllTimestamps P = All (λ r. All P r.fire_timestamps)

append_if-AllTimestamps :
    (P : ℕ → Type 0) (req : NotifyTimerTasksRequest) (tss : List ℕ)
    (current : List NotifyTimerTasksRequest)
    → AllTimestamps P current
    → All P tss
    → AllTimestamps P (append_if current (request_of req tss))
append_if-AllTimestamps P req [] current h k = h
append_if-AllTimestamps P req (ts ∷ more) current h k =
    All-append (λ r. All P r.fire_timestamps) current _ h (k, tt)

filter_all-le :
    (window : ℕ) (reqs current : List NotifyTimerTasksRequest) (smallest : ℕ)
    → (filter_all window reqs current smallest).1 ≤ smallest
unfolding filter_all filter_notify_request
filter_all-le window [] current smallest = omega arith
filter_all-le window (req ∷ more) current smallest =
    let kept = filter_timestamps window req.fire_timestamps smallest in
    let rest = filter_all-le window more (append_if current (request_of req kept.0)) kept.1 in
    omega (arith, (filter_timestamps-AtLeast window req.fire_timestamps smallest).0, rest)

-- The filter of all requests keeps what holds of the requests so far and of every timestamp from the
-- smallest one on.
filter_all_lem :
    (P : ℕ → Type 0) (window : ℕ) (reqs current : List NotifyTimerTasksRequest) (smallest : ℕ)
    → AllTimestamps P current
    → ((ts : ℕ) → (filter_all window reqs current smallest).1 ≤ ts → P ts)
    → AllTimestamps P (filter_all window reqs current smallest).0
unfolding filter_all filter_notify_request
filter_all_lem P window [] current smallest h from = h
filter_all_lem P window (req ∷ more) current smallest h from =
    let kept = filter_timestamps window req.fire_timestamps smallest in
    let least = filter_timestamps-AtLeast window req.fire_timestamps smallest in
    let current' = append_if current (request_of req kept.0) in
    let bound = filter_all-le window more current' kept.1 in
    filter_all_lem P window more current' kept.1
      (append_if-AllTimestamps P req kept.0 current h
        (All-map (λ ts. kept.1 ≤ ts) P kept.0 (λ ts k. from ts (omega (arith, bound, k))) least.1))
      from

-- The trigger gate wakes for a timestamp, math.MaxInt64 excepted.
abbrev pub wakes_for_timestamp : TimerGate → ℕ → Bool
wakes_for_timestamp g ts = leb max_int64 ts || wakes_by g (from_unix ts)

abbrev pub Awaits : TimerGate → List NotifyTimerTasksRequest → Type 0
Awaits g reqs = AllTimestamps (λ ts. wakes_for_timestamp g ts ≡ true) reqs

module _ (g : TimerGate) (smallest : ℕ) (s : IsSound g) where
  abbrev drained_gate : TimerGate
  drained_gate = if smallest == max_int64 then g else update_if_earlier g (from_unix smallest)

  drained_gate-IsSound : IsSound drained_gate
  drained_gate-IsSound = elim (Bool-cases (smallest == max_int64)) [
    | inl e ↦ rw e s
    | inr e ↦ rw e (update_if_earlier-IsSound g (from_unix smallest) s)
  ]

  drained_gate-keeps :
      (ts : ℕ) → wakes_for_timestamp g ts ≡ true → wakes_for_timestamp drained_gate ts ≡ true
  drained_gate-keeps ts h = elim (Bool-cases (smallest == max_int64)) [
    | inl e ↦ rw e h
    | inr e ↦ elim (Bool-cases (leb max_int64 ts)) [
      | inl big ↦ rw big refl
      | inr small ↦
          rw (small, e)
            (update_if_earlier-wakes_by_other g (from_unix smallest) (from_unix ts) s
              (subst (λ (b : Bool). (b || wakes_by g (from_unix ts)) ≡ true) small h))
    ]
  ]

  drained_gate-wakes : (ts : ℕ) → smallest ≤ ts → wakes_for_timestamp drained_gate ts ≡ true
  drained_gate-wakes ts le = elim (Bool-cases (leb max_int64 ts)) [
    | inl big ↦ rw big refl
    | inr small ↦
        let e : (smallest == max_int64) ≡ false = ground (arith, small, le) in
        rw (small, e)
          (wakes_by_later (update_if_earlier g (from_unix smallest)) (from_unix smallest)
            (from_unix ts) (omega (arith, le))
            (update_if_earlier-wakes_by g (from_unix smallest) s))
  ]

-- After a drain the trigger gate is set for every request that waits to be polled.
pub drain_all_notify_requests-Awaits :
    (init_req : Option NotifyTimerTasksRequest) (q : TimerTaskQueue)
    → IsSound q.trigger_poll_timer
    → Awaits q.trigger_poll_timer q.current_notify_requests
    → IsSound (drain_all_notify_requests init_req q).trigger_poll_timer
      × Awaits
          (drain_all_notify_requests init_req q).trigger_poll_timer
          (drain_all_notify_requests init_req q).current_notify_requests
unfolding drain_all_notify_requests
drain_all_notify_requests-Awaits init_req q s h =
    let reqs = first_and init_req q.triggered_polling_chan in
    let smallest =
      (filter_all q.curr_window_timestamp reqs q.current_notify_requests max_int64).1 in
    let g = q.trigger_poll_timer in
    (
      drained_gate-IsSound g smallest s,
      filter_all_lem (λ ts. wakes_for_timestamp (drained_gate g smallest s) ts ≡ true)
          q.curr_window_timestamp reqs q.current_notify_requests max_int64
          (All-map _ _ q.current_notify_requests
            (λ r k. All-map _ _ r.fire_timestamps (λ ts w. drained_gate-keeps g smallest s ts w) k)
            h)
          (λ ts le. drained_gate-wakes g smallest s ts le),
    )
