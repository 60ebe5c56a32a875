-- ===== src/DataModels/Sequences/View.antt =====
-- The sequence maps seen as counters and a set of running executions.
use xdb.Prelude.{
  ℕ, ◌+◌, ◌%◌, ◌^◌, ◌≡◌, refl, arith, Bool, true, false, [], ◌∷◌, ite, Option, none, some, ok, err,
  state_not_started, GoMap, GoString, nat_key, string_key, string_discrete, ℕ_discrete,
}
use xdb.Prelude.Maps.{or_empty, get, delete, get-set, get-delete}
use xdb.DataModels.Sequences.{
  StateExecutionSequenceMaps, or_zero, or_false, next_sequence, add_pending,
  start_new_state_execution, close_state, complete_new_state_execution,
}

-- Whether an execution of a state is running.
abbrev pub is_pending : StateExecutionSequenceMaps → GoString → ℕ → Bool
is_pending s state_id seq = or_false (get (or_empty (get s.pending_execution_map state_id)) seq)

-- How many executions of a state were started.
abbrev pub started : StateExecutionSequenceMaps → GoString → ℕ
started s state_id = or_zero (get s.sequence_map state_id)

get-add_pending :
    (o : Option (GoMap ℕ Bool)) (seq j : ℕ)
    → or_false (get (add_pending o seq) j)
      ≡ ite (ℕ_discrete seq j) true (or_false (get (or_empty o) j))
unfolding add_pending get
get-add_pending none seq j = ground arith
get-add_pending (some m) seq j = ground (arith, get-set m seq j true)

-- Starting an execution of a state counts it, makes it pending under the new count, and touches
-- nothing else.
pub start_new_state_execution_lem :
    (s : StateExecutionSequenceMaps) (a b : GoString) (j : ℕ)
    → let (t, seq) = start_new_state_execution s a in
      (seq ≡ (started s a + 1) % 2 ^ 64)
      × (started t b ≡ ite (string_discrete a b) seq (started s b))
      × (is_pending t b j
          ≡ ite
              (string_discrete a b)
              (ite (ℕ_discrete seq j) true (is_pending s b j))
              (is_pending s b j))
unfolding start_new_state_execution
start_new_state_execution_lem s a b j = (
  refl,
  ground (arith, get-set s.sequence_map a b (next_sequence s a)),
  rw (get-set s.pending_execution_map a b _)
      (ground (arith, get-add_pending (get s.pending_execution_map a) (next_sequence s a) j)),
)

pub get-close_state :
    (p : GoMap GoString (GoMap ℕ Bool)) (a b : GoString) (m : GoMap ℕ Bool)
    → or_empty (get (close_state p a m) b) ≡ ite (string_discrete a b) m (or_empty (get p b))
unfolding close_state
get-close_state p a b [] = rw (get-delete p a b) (ground arith)
get-close_state p a b (x ∷ m) = rw (get-set p a b (x ∷ m)) (ground arith)

is_pending-close_state :
    (p : GoMap GoString (GoMap ℕ Bool)) (a b : GoString) (seq j : ℕ)
    → or_false (get (or_empty (get (close_state p a (delete (or_empty (get p a)) seq)) b)) j)
      ≡ ite
          (string_discrete a b)
          (ite (ℕ_discrete seq j) false (or_false (get (or_empty (get p b)) j)))
          (or_false (get (or_empty (get p b)) j))
is_pending-close_state p a b seq j =
    rw (get-close_state p a b (delete (or_empty (get p a)) seq))
      (ground (arith, get-delete (or_empty (get p a)) seq j))

-- To complete an execution that is not running is an error.
pub complete_new_state_execution-refused :
    (s : StateExecutionSequenceMaps) (a : GoString) (seq : ℕ)
    → is_pending s a seq ≡ false
    → complete_new_state_execution s a seq ≡ err state_not_started
unfolding complete_new_state_execution
complete_new_state_execution-refused s a seq h = rw h

-- To complete an execution that is running succeeds: it is no longer pending, and the counters and
-- the other executions stay as they were.
pub complete_new_state_execution-completes :
    (s : StateExecutionSequenceMaps) (a : GoString) (seq : ℕ)
    → is_pending s a seq ≡ true
    → (t : StateExecutionSequenceMaps) × (complete_new_state_execution s a seq ≡ ok t)
      × (t.sequence_map ≡ s.sequence_map)
      × ((b : GoString) (j : ℕ)
          → is_pending t b j
            ≡ ite
                (string_discrete a b)
                (ite (ℕ_discrete seq j) false (is_pending s b j))
                (is_pending s b j))
unfolding complete_new_state_execution
complete_new_state_execution-completes s a seq h = (
  record s {
    pending_execution_map =
        close_state s.pending_execution_map a
          (delete (or_empty (get s.pending_execution_map a)) seq);
  },
  rw h,
  refl,
  λ b j. is_pending-close_state s.pending_execution_map a b seq j,
)
