-- ===== src/DataModels/Sequences.antt =====
-- persistence/data_models/state_execution_sequence_maps_json.go: the counters of the states of a
-- process execution and the executions that are running. An `int` is its 64-bit pattern.
pub mod View
pub mod Invariant
use xdb.Prelude.{
  ℕ, ◌+◌, ◌%◌, ◌^◌, ◌≡◌, Bool, true, false, [], ◌∷◌, ite, Option, none, some, Result, ok, err,
  state_not_started, if◌then◌else◌, GoMap, GoString, nat_key, string_key,
}
use xdb.Prelude.Maps.{or_empty, is_empty, get, set, delete}

pub record StateExecutionSequenceMaps : Type 0 where
  pub sequence_map : GoMap GoString ℕ
  -- state id, then sequence; the Boolean is what the code stores, which is `true`
  pub pending_execution_map : GoMap GoString (GoMap ℕ Bool)

-- What Go reads at a key that is missing.
abbrev pub or_zero : Option ℕ → ℕ
or_zero none = 0
or_zero (some n) = n

abbrev pub or_false : Option Bool → Bool
or_false none = false
or_false (some b) = b

-- NewStateExecutionSequenceMaps
abbrev pub new_state_execution_sequence_maps : StateExecutionSequenceMaps
new_state_execution_sequence_maps = record { sequence_map = []; pending_execution_map = [] }

abbrev pub next_sequence : StateExecutionSequenceMaps → GoString → ℕ
next_sequence s state_id = (or_zero (get s.sequence_map state_id) + 1) % 2 ^ 64

pub add_pending : Option (GoMap ℕ Bool) → ℕ → GoMap ℕ Bool
add_pending none seq = (seq, true) ∷ []
add_pending (some m) seq = set m seq true

-- StartNewStateExecution
unfoldable pub start_new_state_execution :
    StateExecutionSequenceMaps → GoString → StateExecutionSequenceMaps × ℕ
unfolding add_pending
start_new_state_execution s state_id =
    let seq = next_sequence s state_id in
    (
      record {
        sequence_map = set s.sequence_map state_id seq;
        pending_execution_map =
            set s.pending_execution_map state_id
              (add_pending (get s.pending_execution_map state_id) seq);
      },
      seq,
    )

-- What is left of the pending sequences of a state once one of them is done.
pub close_state :
    GoMap GoString (GoMap ℕ Bool) → GoString → GoMap ℕ Bool → GoMap GoString (GoMap ℕ Bool)
close_state pending state_id rest =
    if is_empty rest then delete pending state_id else set pending state_id rest

-- CompleteNewStateExecution
unfoldable pub complete_new_state_execution :
    StateExecutionSequenceMaps → GoString → ℕ → Result StateExecutionSequenceMaps
unfolding close_state
complete_new_state_execution s state_id seq =
    let pending = or_empty (get s.pending_execution_map state_id) in
    if or_false (get pending seq)
    then ok (record s {
      pending_execution_map = close_state s.pending_execution_map state_id (delete pending seq);
    })
    else err state_not_started
