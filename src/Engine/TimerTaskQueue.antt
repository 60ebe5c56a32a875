-- ===== src/Engine/TimerTaskQueue.antt =====
-- engine/timer_task_queue.go: the state of timerTaskQueueImpl and the handlers of its loop. Gates go
-- by nanoseconds, tasks by seconds. Clock readings, drawn jitters and the answers of the process
-- store are arguments; a task is its row. The heap is a slice under container/heap.
pub mod Firing
pub mod Waking
pub mod Loading
pub mod Running
pub mod Keeping
pub mod Steps
use xdb.Prelude.{
  ℕ, zero, suc, ◌+◌, ◌-◌, ◌*◌, ◌/◌, ◌^◌, Bool, true, false, not, ◌&&◌, List, [], ◌∷◌, ◌++◌, Option,
  none, some, if◌then◌else◌, ltb, leb, ◌==◌, length, map, Result, ok, err, panic,
}
use mathlib.Core.Option
use xdb.Prelude.Maps.{is_empty}
use xdb.Database.Rows.{TimerTaskRow}
use xdb.Process.Pages.{GetTimerTasksResponse}
use xdb.Engine.TimerGate.{TimerGate, new_local_timer_gate, stop, update, inactive_or_fire_after}
use xdb.Engine.TimerNotifications.{NotifyTimerTasksRequest, first_and, filter_all, max_int64}
use xdb.Engine.TimerHeap.{HeapPackage, new_timer_task_priority_queue}

-- timerTaskQueueImpl
pub record TimerTaskQueue : Type 0 where
  pub next_preload_timer : TimerGate
  pub next_firing_timer : TimerGate
  pub trigger_poll_timer : TimerGate
  pub curr_max_loaded_task_sequence : ℕ
  pub curr_window_timestamp : ℕ
  pub remaining_to_fire_timers_heap : List TimerTaskRow
  pub triggered_polling_chan : List NotifyTimerTasksRequest
  pub current_notify_requests : List NotifyTimerTasksRequest

-- NewTimerTaskQueueImpl
abbrev pub new_timer_task_queue : TimerTaskQueue
new_timer_task_queue = record {
  next_preload_timer = new_local_timer_gate;
  next_firing_timer = new_local_timer_gate;
  trigger_poll_timer = new_local_timer_gate;
  curr_max_loaded_task_sequence = 0;
  curr_window_timestamp = 0;
  remaining_to_fire_timers_heap = [];
  triggered_polling_chan = [];
  current_notify_requests = [];
}

-- time.Unix(seconds, 0) and Time.Unix
abbrev pub from_unix : ℕ → ℕ
from_unix seconds = seconds * 10 ^ 9

abbrev pub to_unix : ℕ → ℕ
to_unix nanoseconds = nanoseconds / 10 ^ 9

-- getNextPollTime, with the jitter that was drawn
abbrev pub get_next_poll_time : ℕ → ℕ → ℕ → ℕ
get_next_poll_time now interval jitter = now + interval + jitter

abbrev pub update_if_earlier : TimerGate → ℕ → TimerGate
update_if_earlier g time = if inactive_or_fire_after g time then (update g time).0 else g

-- drainAllNotifyRequests
unfoldable pub drain_all_notify_requests :
    Option NotifyTimerTasksRequest → TimerTaskQueue → TimerTaskQueue
unfolding filter_all
drain_all_notify_requests init_req q =
    let drained =
      filter_all q.curr_window_timestamp (first_and init_req q.triggered_polling_chan)
        q.current_notify_requests max_int64 in
    record q {
      triggered_polling_chan = [];
      current_notify_requests = drained.0;
      trigger_poll_timer =
          if drained.1 == max_int64
          then q.trigger_poll_timer
          else update_if_earlier q.trigger_poll_timer (from_unix drained.1);
    }

-- shouldLoadNextWindowBatch
abbrev pub should_load_next_window_batch : TimerTaskQueue → Bool
should_load_next_window_batch q =
    not q.next_preload_timer.is_active && is_empty q.remaining_to_fire_timers_heap

-- What a load takes from outside: the time, the configured look-ahead, the jitter, and the store,
-- which is asked for the tasks up to a timestamp.
pub record LoadEnv : Type 0 where
  pub now : ℕ
  pub max_timer_preload_look_ahead : ℕ
  pub jitter : ℕ
  pub get_timer_tasks_up_to_timestamp : ℕ → Result GetTimerTasksResponse

-- The gate for the first timer of a heap; a heap of loaded tasks is not empty.
abbrev pub fire_at_first : TimerGate → List TimerTaskRow → TimerGate
fire_at_first g [] = g
fire_at_first g (t ∷ h) = (update g (from_unix t.fire_time_unix_seconds)).0

abbrev pub window_end : GetTimerTasksResponse → ℕ → ℕ
window_end resp max_window_time =
    if not (is_empty resp.tasks) && resp.full_page
    then from_unix resp.max_fire_timestamp_seconds_inclusive
    else max_window_time

module _ (hp : HeapPackage) where
  abbrev pub loaded_heap : GetTimerTasksResponse → List TimerTaskRow → List TimerTaskRow
  loaded_heap resp heap =
      if is_empty resp.tasks then heap else new_timer_task_priority_queue hp resp.tasks

  abbrev pub loaded_firing : GetTimerTasksResponse → TimerGate → TimerGate
  loaded_firing resp g =
      if is_empty resp.tasks
      then g
      else fire_at_first g (new_timer_task_priority_queue hp resp.tasks)

  -- An error is logged with the number of the tasks of a nil response, which is a panic.
  unfoldable pub loaded : ℕ → TimerTaskQueue → Result GetTimerTasksResponse → Result TimerTaskQueue
  loaded max_window_time q (err _) = err panic
  loaded max_window_time q (ok resp) = ok (record q {
    remaining_to_fire_timers_heap = loaded_heap resp q.remaining_to_fire_timers_heap;
    next_firing_timer = loaded_firing resp q.next_firing_timer;
    next_preload_timer = (update q.next_preload_timer (window_end resp max_window_time)).0;
    curr_window_timestamp = to_unix (window_end resp max_window_time);
    curr_max_loaded_task_sequence = resp.max_sequence_inclusive;
  })

  -- loadAndDispatchAndPrepareNext
  unfoldable pub load_and_dispatch_and_prepare_next :
      LoadEnv → TimerTaskQueue → Result TimerTaskQueue
  unfolding loaded drain_all_notify_requests
  load_and_dispatch_and_prepare_next env q =
      let drained = drain_all_notify_requests none q in
      let max_window_time =
        get_next_poll_time env.now env.max_timer_preload_look_ahead env.jitter in
      loaded max_window_time
        (record drained {
          current_notify_requests = [];
          trigger_poll_timer = stop drained.trigger_poll_timer;
        })
        (env.get_timer_tasks_up_to_timestamp (to_unix max_window_time))

  -- The loop of sendAllFiredTimerTasksToProcessor: the tasks that are sent, the heap and the gate
  -- that are left. `now i` is the reading of the clock in round `i`.
  unfoldable pub send_loop :
      ℕ
      → (ℕ → ℕ)
      → ℕ
      → TimerGate
      → List TimerTaskRow
      → Option (List TimerTaskRow × List TimerTaskRow × TimerGate)
  send_loop zero now i g heap = none
  send_loop (suc fuel) now i g [] = some ([], [], g)
  send_loop (suc fuel) now i g (t ∷ heap) =
      let rest = send_loop fuel now (suc i) g (hp.pop t heap) in
      if leb t.fire_time_unix_seconds (to_unix (now i))
      then Option.map (λ r. (t ∷ r.0, r.1, r.2)) rest
      else some ([], t ∷ heap, (update g (from_unix t.fire_time_unix_seconds)).0)

  -- sendAllFiredTimerTasksToProcessor, with the tasks that it sends
  unfoldable pub send_all_fired_timer_tasks_to_processor :
      (ℕ → ℕ) → TimerTaskQueue → Option (List TimerTaskRow × TimerTaskQueue)
  unfolding send_loop
  send_all_fired_timer_tasks_to_processor now q =
      if is_empty q.remaining_to_fire_timers_heap
      then some ([], q)
      else Option.map
          (λ r. (r.0, record q { remaining_to_fire_timers_heap = r.1; next_firing_timer = r.2 }))
          (send_loop (suc (length q.remaining_to_fire_timers_heap)) now 0 q.next_firing_timer
            q.remaining_to_fire_timers_heap)

  unfoldable pub push_all : List TimerTaskRow → List TimerTaskRow → List TimerTaskRow
  push_all heap [] = heap
  push_all heap (t ∷ ts) = push_all (hp.push heap t) ts

  -- An error is a panic here too.
  unfoldable pub polled : TimerTaskQueue → Result GetTimerTasksResponse → Result TimerTaskQueue
  unfolding push_all
  polled q (err _) = err panic
  polled q (ok resp) = ok (
      if is_empty resp.tasks then q else record q {
        curr_max_loaded_task_sequence = resp.max_sequence_inclusive;
        remaining_to_fire_timers_heap = push_all q.remaining_to_fire_timers_heap resp.tasks;
        next_firing_timer =
            update_if_earlier q.next_firing_timer
              (from_unix resp.min_fire_timestamp_seconds_inclusive);
      })

  -- triggeredPolling. The store is asked for the tasks at some timestamps from a sequence on.
  unfoldable pub triggered_polling :
      (List (List ℕ) → ℕ → Result GetTimerTasksResponse) → TimerTaskQueue → Result TimerTaskQueue
  unfolding polled
  triggered_polling get_timer_tasks_for_timestamps q =
      if is_empty q.current_notify_requests
      then ok q
      else polled (record q { current_notify_requests = [] })
          (get_timer_tasks_for_timestamps (map (λ r. r.fire_timestamps) q.current_notify_requests)
            (q.curr_max_loaded_task_sequence + 1))

  -- The handlers of the loop in Start, after the signal or the request is taken.
  abbrev pub load_if : LoadEnv → TimerTaskQueue → Result TimerTaskQueue
  load_if env q =
      if should_load_next_window_batch q then load_and_dispatch_and_prepare_next env q else ok q
