-- ===== src/Examples/Pending.antt =====
-- The queue of immediate tasks reads two tasks and receives them back.
use xdb.Prelude.{
  ℕ, arith, List, [], ◌∷◌, some, ok, ◌>>=◌, ◌≡◌, refl, codes, nat_key, ℕ_discrete, subst,
  if◌then◌else◌, ◌==◌,
}
use xdb.Prelude.Maps.{get, set, delete}
use xdb.DataModels.Enums.{ImmediateTaskType}
use xdb.DataModels.Infos.{no_task_info}
use xdb.Database.Rows.{ImmediateTaskRow}
use xdb.Process.Pages.{immediate_response}
use xdb.Engine.ImmediateTaskQueue.{
  ImmediateTaskQueue, new_immediate_task_queue, poll_and_dispatch_and_prepare_next,
  receive_completed_task,
}
use xdb.Engine.ImmediateTaskQueue.Counts.{pending_of}
use xdb.Engine.ImmediateTaskQueue.Accounting.{
  IsValid, poll_and_dispatch_and_prepare_next-IsValid, receive_completed_task-completes,
}

abbrev task_at : ℕ → ImmediateTaskRow
task_at sequence = record {
  task_sequence = sequence;
  row = record {
    shard_id = 0;
    task_type = ImmediateTaskType.execute;
    process_execution_id = 5;
    state_id = codes "a";
    state_id_sequence = 1;
    info = no_task_info;
  };
}

abbrev tasks : List ImmediateTaskRow
tasks = task_at 3 ∷ task_at 5 ∷ []

abbrev polled : ImmediateTaskQueue
polled = record {
  current_read_cursor = 6;
  pending_task_sequence_to_page = (3, 0) ∷ (5, 0) ∷ [];
  completed_pages = [];
  pages = (0, record { min_task_sequence = 3; max_task_sequence = 5; pending_count = 2 }) ∷ [];
  next_page = 1;
}

polled_lem :
    poll_and_dispatch_and_prepare_next (ok (immediate_response tasks)) new_immediate_task_queue
    ≡ (polled, tasks)
unfolding poll_and_dispatch_and_prepare_next set ℕ_discrete
polled_lem = refl

new_queue-IsValid : IsValid new_immediate_task_queue
unfolding get
new_queue-IsValid = (tt, tt, tt, λ p. refl)

poll_example :
    IsValid
      (poll_and_dispatch_and_prepare_next
        (ok (immediate_response tasks))
        new_immediate_task_queue).0
poll_example =
    poll_and_dispatch_and_prepare_next-IsValid new_immediate_task_queue tasks new_queue-IsValid
      (omega arith, (omega arith, tt)) (omega arith)

polled-IsValid : IsValid polled
polled-IsValid =
    subst (λ r. IsValid r.0) polled_lem
      (poll_and_dispatch_and_prepare_next-IsValid new_immediate_task_queue tasks new_queue-IsValid
        (omega arith, (omega arith, tt)) (omega arith))

found_page : get polled.pending_task_sequence_to_page 3 ≡ some 0
unfolding get ℕ_discrete
found_page = refl

receive_example :
    (q' : ImmediateTaskQueue) × (receive_completed_task polled 3 ≡ ok q')
    × IsValid q'
    × (q'.pending_task_sequence_to_page ≡ delete polled.pending_task_sequence_to_page 3)
    × (q'.completed_pages ≡ (
        if pending_of 0 (delete polled.pending_task_sequence_to_page 3) == 0 then 0 ∷ [] else []))
receive_example = receive_completed_task-completes polled 3 0 polled-IsValid found_page

abbrev both_received : ImmediateTaskQueue
both_received = record {
  current_read_cursor = 6;
  pending_task_sequence_to_page = [];
  completed_pages = 0 ∷ [];
  pages = (0, record { min_task_sequence = 3; max_task_sequence = 5; pending_count = 0 }) ∷ [];
  next_page = 1;
}

both_received_lem :
    (receive_completed_task polled 5 >>= λ q. receive_completed_task q 3) ≡ ok both_received
unfolding receive_completed_task get set delete ℕ_discrete
both_received_lem = refl
