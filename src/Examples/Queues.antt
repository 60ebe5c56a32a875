-- ===== src/Examples/Queues.antt =====
-- The theorems on local queues, sequence maps and state ids at inputs of their own.
use xdb.Prelude.{
  ℕ, arith, true, false, [], ◌∷◌, ◌++◌, none, some, ok, err, ◌≡◌, refl, ite, GoString, codes,
  nat_key, string_key, string_discrete, ℕ_discrete, state_not_started,
}
use xdb.Prelude.Maps.{or_empty, get, set, delete}
use xdb.DataModels.StateIds.{
  StateExecutionId, get_state_execution_id, new_state_execution_id_from_string,
  new_state_execution_id_from_string-get_state_execution_id,
}
use xdb.DataModels.Sequences.{
  StateExecutionSequenceMaps, start_new_state_execution, complete_new_state_execution,
  next_sequence,
}
use xdb.DataModels.Sequences.View.{
  is_pending, complete_new_state_execution-refused, complete_new_state_execution-completes,
}
use xdb.DataModels.Sequences.Invariant.{
  IsValid, start_new_state_execution-IsValid, complete_new_state_execution-IsValid,
  next_sequence_fresh,
}
use xdb.DataModels.LocalQueues.{
  StateExecutionLocalQueues, LocalQueueCommand, LocalQueueMessageInfo, any_of_completion,
  add_message_and_try_consume, add_new_local_queue_commands, try_consume_for_state_execution,
  messages_of, new_message,
}
use xdb.DataModels.LocalQueues.Lookup.{IsMap}
use xdb.DataModels.LocalQueues.Messages.{
  taken, add_message_and_try_consume_fifo, add_message_and_try_consume_served,
}
use xdb.DataModels.LocalQueues.Settled.{IsSettled, add_message_and_try_consume-IsSettled}
use xdb.DataModels.LocalQueues.Registered.{register_and_consume-IsSettled}

abbrev greet_2 : StateExecutionId
greet_2 = record { state_id = codes "greet-all"; state_id_sequence = 2 }

round_trip_example :
    new_state_execution_id_from_string (get_state_execution_id greet_2) ≡ ok greet_2
round_trip_example = new_state_execution_id_from_string-get_state_execution_id greet_2 (omega arith)

-- One execution of the state `a` is running.
abbrev one_running : StateExecutionSequenceMaps
one_running = record {
  sequence_map = (codes "a", 1) ∷ [];
  pending_execution_map = (codes "a", (1, true) ∷ []) ∷ [];
}

one_running-IsValid : IsValid one_running
unfolding get string_discrete
one_running-IsValid = (((λ e. cc e), ((refl, omega arith), tt)), tt)

refused_example : complete_new_state_execution one_running (codes "a") 2 ≡ err state_not_started
unfolding get string_discrete ℕ_discrete
refused_example = complete_new_state_execution-refused one_running (codes "a") 2 refl

completes_example :
    (t : StateExecutionSequenceMaps) × (complete_new_state_execution one_running (codes "a") 1
      ≡ ok t)
    × (t.sequence_map ≡ one_running.sequence_map)
    × ((b : GoString) (j : ℕ)
        → is_pending t b j
          ≡ ite
              (string_discrete (codes "a") b)
              (ite (ℕ_discrete 1 j) false (is_pending one_running b j))
              (is_pending one_running b j))
unfolding get string_discrete ℕ_discrete
completes_example = complete_new_state_execution-completes one_running (codes "a") 1 refl

start-IsValid_example : IsValid (start_new_state_execution one_running (codes "b")).0
unfolding get string_discrete
start-IsValid_example =
    start_new_state_execution-IsValid one_running (codes "b") one_running-IsValid (omega arith)

abbrev none_running : StateExecutionSequenceMaps
none_running = record { sequence_map = (codes "a", 1) ∷ []; pending_execution_map = [] }

complete-IsValid_example : IsValid none_running
unfolding complete_new_state_execution get set delete string_discrete ℕ_discrete
complete-IsValid_example =
    complete_new_state_execution-IsValid one_running none_running (codes "a") 1 one_running-IsValid
      refl

fresh_example : is_pending one_running (codes "a") (next_sequence one_running (codes "a")) ≡ false
unfolding get string_discrete
fresh_example = next_sequence_fresh one_running (codes "a") one_running-IsValid (omega arith)

-- The state `a-1` waits for two messages of the queue `q`, which holds one.
abbrev waiting_for_two : StateExecutionLocalQueues
waiting_for_two = record {
  commands = (codes "a-1", (0, record { queue_name = codes "q"; count = 2 }) ∷ []) ∷ [];
  unconsumed = (codes "q", record { dedup_id = 7; is_full = false } ∷ []) ∷ [];
}

waiting_for_two-IsMap : IsMap waiting_for_two.commands
unfolding get
waiting_for_two-IsMap = ((refl, tt), ((refl, tt), tt))

waiting_for_two-IsSettled : IsSettled waiting_for_two
unfolding get string_discrete
waiting_for_two-IsSettled = ((omega arith, tt), tt)

abbrev message : LocalQueueMessageInfo
message = record { queue_name = codes "q"; dedup_id = 8 }

fifo_example :
    let (t, r) = add_message_and_try_consume waiting_for_two message in
    ite (string_discrete (codes "q") (codes "q")) (taken r) []
      ++ messages_of t.unconsumed (codes "q")
    ≡ messages_of waiting_for_two.unconsumed (codes "q")
      ++ ite (string_discrete (codes "q") (codes "q")) (new_message message ∷ []) []
fifo_example = add_message_and_try_consume_fifo waiting_for_two message (codes "q")

served_example :
    let t = (add_message_and_try_consume waiting_for_two message).0 in
    (c : LocalQueueCommand) × (get (or_empty (get waiting_for_two.commands (codes "a-1"))) 0
      ≡ some c)
    × (c.queue_name ≡ codes "q")
    × (2 ≡ c.count)
    × (get (or_empty (get t.commands (codes "a-1"))) 0 ≡ none)
served_example =
    add_message_and_try_consume_served waiting_for_two message (codes "a-1") 0
      (record { dedup_id = 7; is_full = false } ∷ record { dedup_id = 8; is_full = false } ∷ [])
      waiting_for_two-IsMap
      (unfold add_message_and_try_consume get set string_discrete ℕ_discrete in refl)

add_message-IsSettled_example : IsSettled (add_message_and_try_consume waiting_for_two message).0
add_message-IsSettled_example =
    add_message_and_try_consume-IsSettled waiting_for_two message waiting_for_two-IsMap
      waiting_for_two-IsSettled

register_example :
    IsSettled
      (try_consume_for_state_execution
        (add_new_local_queue_commands waiting_for_two
          (codes "b-1")
          (record { queue_name = codes "q"; count = 0 } ∷ []))
        (codes "b-1")
        any_of_completion).0
register_example =
    register_and_consume-IsSettled waiting_for_two (codes "b-1")
      (record { queue_name = codes "q"; count = 0 } ∷ []) any_of_completion waiting_for_two-IsMap
      waiting_for_two-IsSettled
