-- ===== src/Process/Decision/Closing.antt =====
-- handleStateDecision of persistence/process/common.go: when a process execution
-- closes, and why one that was asked to complete is not left without a state.
use xdb.Prelude.{
  ℕ, suc, ◌+◌, ◌<◌, ◌^◌, string_discrete, length, if_pos, if_neg, subst, arith, Bool, true, false,
  ◌&&◌, List, [], ◌∷◌, Option, none, some, ok, if◌then◌else◌, ◌≡◌, ◌∙◌, GoString, nat_key,
  string_key,
}
use xdb.DataModels.Enums.{ProcessExecutionStatus, is_running}
use xdb.DataModels.Sequences.{StateExecutionSequenceMaps, start_new_state_execution}
use xdb.DataModels.Infos.{
  ThreadCloseType, StateMovement, from_encoded_object, graceful_complete_process,
  force_complete_process, force_fail_process, dead_end,
}
use xdb.DataModels.Sequences.View.{started, start_new_state_execution_lem}
use xdb.DataModels.Sequences.Invariant.{IsValid, start_new_state_execution-IsValid}
use xdb.Database.Rows.{Db}
use xdb.Database.Tx.{Env, pure}
use xdb.Database.Tx.Runs.{Answers, bind-Answers, bind-Answers_from, then-Answers, pure-Answers}
use xdb.Process.Common.{insert_async_state_execution, insert_immediate_task}
use xdb.Process.Decision.{
  next_state_info, response_of, HandleStateDecisionRequest, HandleStateDecisionResponse,
  start_next_states, Closed, nothing_pending, decide_closing, close_thread, before_closing,
  abort_if, handle_state_decision,
}

-- A process execution that goes on and is asked to complete, but has no pending state execution
-- whose end would complete it.
abbrev pub is_stuck : ProcessExecutionStatus → Bool → StateExecutionSequenceMaps → Bool
is_stuck status graceful maps = is_running status && (graceful && nothing_pending maps)

decide_closing_not_stuck :
    (close : Option ThreadCloseType) (graceful : Bool) (status : ProcessExecutionStatus)
    (maps : StateExecutionSequenceMaps)
    → let c = decide_closing close graceful status maps in
      is_stuck c.status c.graceful c.maps ≡ false
unfolding decide_closing
decide_closing_not_stuck none graceful status maps = ground arith
decide_closing_not_stuck (some graceful_complete_process) graceful status maps = ground arith
decide_closing_not_stuck (some force_complete_process) graceful status maps = ground arith
decide_closing_not_stuck (some force_fail_process) graceful status maps = ground arith
decide_closing_not_stuck (some dead_end) graceful status maps = ground arith

-- After a state decision, a process execution that is still running and is asked to complete has
-- a state execution that is pending.
pub handle_state_decision_not_stuck :
    (r : HandleStateDecisionRequest) (e : Env) (db : Db) (resp : HandleStateDecisionResponse)
    (db' : Db)
    → handle_state_decision r e db ≡ ok (resp, db')
    → is_stuck resp.new_status resp.new_graceful_complete_requested resp.new_sequence_maps ≡ false
unfolding handle_state_decision
handle_state_decision_not_stuck r =
    bind-Answers
      (λ resp.
        is_stuck resp.new_status resp.new_graceful_complete_requested resp.new_sequence_maps
        ≡ false)
      (start_next_states r r.state_decision.next_states r.sequence_maps) _
      (λ maps.
        let c : Closed =
          decide_closing r.state_decision.thread_close_decision r.graceful_complete_requested
            r.status maps in
        then-Answers _ (abort_if c.to_abort r.process_execution_id) (pure (response_of r c)) (
          pure-Answers _ _ (
            decide_closing_not_stuck r.state_decision.thread_close_decision
              r.graceful_complete_requested r.status maps)))

-- Room for `n` more executions of every state.
abbrev pub HasRoom : ℕ → StateExecutionSequenceMaps → Type 0
HasRoom n maps = (a : GoString) → started maps a + n < 2 ^ 64

start_new_state_execution-HasRoom :
    (maps : StateExecutionSequenceMaps) (a : GoString) (n : ℕ)
    → HasRoom (suc n) maps
    → HasRoom n (start_new_state_execution maps a).0
start_new_state_execution-HasRoom maps a n h b =
    let (seq, count, _) = start_new_state_execution_lem maps a b 0 in
    let room_a = h a in
    let room_b = h b in
    elim (string_discrete a b) [
      | yes p ↦ rw (count ∙ if_pos (string_discrete a b) p _ _ ∙ seq) (omega arith)
      | no q ↦ rw (count ∙ if_neg (string_discrete a b) q _ _) (omega arith)
    ]

if-IsValid :
    (b : Bool) (c d : Closed) → IsValid c.maps → IsValid d.maps → IsValid (if b then c else d).maps
if-IsValid true c d v w = v
if-IsValid false c d v w = w

close_thread-IsValid :
    (close : Option ThreadCloseType) (c : Closed)
    → IsValid c.maps
    → IsValid (close_thread close c).maps
close_thread-IsValid none c v = v
close_thread-IsValid (some graceful_complete_process) c v = v
close_thread-IsValid (some force_complete_process) c v = tt
close_thread-IsValid (some force_fail_process) c v = tt
close_thread-IsValid (some dead_end) c v = v

decide_closing-IsValid :
    (close : Option ThreadCloseType) (graceful : Bool) (status : ProcessExecutionStatus)
    (maps : StateExecutionSequenceMaps)
    → IsValid maps
    → IsValid (decide_closing close graceful status maps).maps
unfolding decide_closing
decide_closing-IsValid close graceful status maps v =
    let c : Closed = before_closing graceful status maps in
    let d : Closed = if c.should_complete then c else close_thread close c in
    let w =
      if-IsValid c.should_complete c (close_thread close c) v (close_thread-IsValid close c v) in
    if-IsValid d.should_complete (record d { status = ProcessExecutionStatus.completed }) d w w

start_next_states-IsValid :
    (r : HandleStateDecisionRequest) (next : List StateMovement) (maps : StateExecutionSequenceMaps)
    → IsValid maps
    → HasRoom (suc (length next)) maps
    → Answers IsValid (start_next_states r next maps)
unfolding start_next_states
start_next_states-IsValid r [] maps v h e db a db' p = subst IsValid (cc p) v
start_next_states-IsValid r (m ∷ ms) maps v h e db a db' p =
    then-Answers IsValid
      (insert_async_state_execution r.process_execution_id m.state_id
        (start_new_state_execution maps m.state_id).1 m.state_config
        (from_encoded_object m.state_input) (next_state_info r m))
      _
      (then-Answers IsValid
        (insert_immediate_task r.process_execution_id m.state_id
          (start_new_state_execution maps m.state_id).1 m.state_config r.task_shard_id)
        (start_next_states r ms (start_new_state_execution maps m.state_id).0)
        (start_next_states-IsValid r ms (start_new_state_execution maps m.state_id).0
          (start_new_state_execution-IsValid maps m.state_id v
            (let k = h m.state_id in omega arith))
          (start_new_state_execution-HasRoom maps m.state_id (suc (length ms)) h)))
      e db a db' p

-- A state decision keeps the sequence maps valid, when the counters have room for its next states.
pub handle_state_decision-IsValid :
    (r : HandleStateDecisionRequest) (e : Env) (db : Db) (resp : HandleStateDecisionResponse)
    (db' : Db)
    → IsValid r.sequence_maps
    → HasRoom (suc (length r.state_decision.next_states)) r.sequence_maps
    → handle_state_decision r e db ≡ ok (resp, db')
    → IsValid resp.new_sequence_maps
unfolding handle_state_decision
handle_state_decision-IsValid r e db resp db' v h p =
    bind-Answers_from IsValid (λ resp. IsValid resp.new_sequence_maps)
      (start_next_states r r.state_decision.next_states r.sequence_maps) _
      (start_next_states-IsValid r r.state_decision.next_states r.sequence_maps v h)
      (λ maps w.
        let c : Closed =
          decide_closing r.state_decision.thread_close_decision r.graceful_complete_requested
            r.status maps in
        then-Answers _ (abort_if c.to_abort r.process_execution_id) (pure (response_of r c)) (
          pure-Answers _ _ (
            decide_closing-IsValid r.state_decision.thread_close_decision
              r.graceful_complete_requested r.status maps w)))
      e db resp db' p
