-- ===== src/Examples/Timers.antt =====
-- Timer gates and the queue of timer tasks, with a sorted slice as the heap.
use xdb.Prelude.{ℕ, ◌+◌, ◌*◌, arith, true, false, List, [], ◌∷◌, none, some, ◌≡◌, refl, codes}
use xdb.DataModels.Enums.{TimerTaskType}
use xdb.DataModels.Infos.{no_timer_info}
use xdb.Database.Rows.{Db, empty_db, TimerTaskRow}
use xdb.Process.Pages.{get_timer_tasks_up_to_timestamp}
use xdb.Engine.TimerGate.{TimerGate, new_local_timer_gate, update}
use xdb.Engine.TimerGate.Alarm.{
  Event, update_to, clock_expires, relays, receives, run, alarm_run, IsSound, new-IsSound,
  run_refines, wakes_by, run-update,
}
use xdb.Engine.TimerTaskQueue.{
  TimerTaskQueue, new_timer_task_queue, send_all_fired_timer_tasks_to_processor, from_unix,
  load_and_dispatch_and_prepare_next,
}
use xdb.Engine.TimerTaskQueue.Firing.{SplitAt, send_all_fired_timer_tasks_to_processor-splits}
use xdb.Engine.TimerTaskQueue.Keeping.{clock_step, goroutine_step, IsAwake}
use xdb.Engine.TimerTaskQueue.Steps.{
  Reach, here, next, preload_gate, preload_fires, start, Reach-IsAwake,
}
use xdb.Examples.SortedHeap.{sorted_heap}

abbrev calls : List Event
calls = update_to 50 ∷ update_to 30 ∷ update_to 40 ∷ receives ∷ []

refines_example :
    IsSound (run new_local_timer_gate calls)
    × ((run new_local_timer_gate calls).armed ≡ alarm_run none calls)
refines_example = run_refines new_local_timer_gate calls new-IsSound

alarm_of_calls : alarm_run none calls ≡ some 30
unfolding alarm_run
alarm_of_calls = refl

abbrev later_calls : List Event
later_calls = update_to 90 ∷ clock_expires ∷ update_to 10 ∷ relays ∷ []

woken_example : wakes_by (run (update new_local_timer_gate 50).0 later_calls) 50 ≡ true
woken_example =
    run-update new_local_timer_gate 50 later_calls new-IsSound (refl, (refl, (refl, (refl, tt))))

abbrev timer_at : ℕ → ℕ → TimerTaskRow
timer_at sequence seconds = record {
  task_sequence = sequence;
  row = record {
    shard_id = 0;
    fire_time_unix_seconds = seconds;
    task_type = TimerTaskType.timer_command;
    process_execution_id = 5;
    state_id = codes "a";
    state_id_sequence = 1;
    info = no_timer_info;
  };
}

abbrev three_timers : TimerTaskQueue
three_timers = record new_timer_task_queue {
  remaining_to_fire_timers_heap = timer_at 1 10 ∷ timer_at 2 20 ∷ timer_at 3 30 ∷ [];
}

-- The clock goes on by five seconds in each round.
abbrev readings : ℕ → ℕ
readings i = from_unix (15 + 5 * i)

splits_example :
    (sent rest : List TimerTaskRow) × (g' : TimerGate) × (k : ℕ)
    × (send_all_fired_timer_tasks_to_processor sorted_heap readings three_timers
        ≡ some (
          sent,
          record three_timers { remaining_to_fire_timers_heap = rest; next_firing_timer = g' },
        ))
    × SplitAt sorted_heap readings 0 three_timers.next_firing_timer
        three_timers.remaining_to_fire_timers_heap sent rest g' k
splits_example =
    send_all_fired_timer_tasks_to_processor-splits sorted_heap readings three_timers
      (λ a b le. omega (arith, le)) refl

two_sent :
    send_all_fired_timer_tasks_to_processor sorted_heap readings three_timers
    ≡ some (
      timer_at 1 10 ∷ timer_at 2 20 ∷ [],
      record three_timers {
        remaining_to_fire_timers_heap = timer_at 3 30 ∷ [];
        next_firing_timer = (update new_local_timer_gate (from_unix 30)).0;
      },
    )
unfolding send_all_fired_timer_tasks_to_processor
two_sent = refl

abbrev two_stored : Db
two_stored = record empty_db { timer_tasks = timer_at 1 30 ∷ timer_at 2 20 ∷ [] }

abbrev preload_signalled : TimerGate
preload_signalled = record new_local_timer_gate { signalled = true; next_wakeup_time = from_unix 5 }

abbrev loaded_queue : TimerTaskQueue
loaded_queue = record new_timer_task_queue {
  next_preload_timer = (update (record preload_signalled { signalled = false }) (from_unix 100)).0;
  next_firing_timer = (update new_local_timer_gate (from_unix 20)).0;
  curr_max_loaded_task_sequence = 2;
  curr_window_timestamp = 100;
  remaining_to_fire_timers_heap = timer_at 2 20 ∷ timer_at 1 30 ∷ [];
}

-- Start, the clock, the goroutine of the preload gate, and the load.
to_loaded : Reach sorted_heap (start (from_unix 5)) loaded_queue
unfolding load_and_dispatch_and_prepare_next get_timer_tasks_up_to_timestamp
to_loaded =
    next (next (next here (preload_gate clock_step refl)) (preload_gate goroutine_step refl))
      (preload_fires two_stored 0 10 (from_unix 40) (from_unix 60) 0 refl refl)

timers_example : IsAwake sorted_heap loaded_queue
timers_example = Reach-IsAwake sorted_heap (from_unix 5) loaded_queue to_loaded
