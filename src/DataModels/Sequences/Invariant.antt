-- ===== src/DataModels/Sequences/Invariant.antt =====
-- What holds of the sequence maps between two operations.
use xdb.Prelude.{
  ℕ, ◌+◌, ◌^◌, ◌≤◌, ◌<◌, ◌≡◌, ◌≢◌, ◌↔◌, refl, subst, arith, Bool, true, false, [], ◌∷◌, Option,
  none, some, ok, GoMap, GoString, nat_key, string_key, string_discrete, ℕ_discrete, Option-cases,
  inl, inr,
}
use xdb.Prelude.Maps.{
  or_empty, get, set, delete, get-set, AllEntries, get-AllEntries, AllEntries-set,
  AllEntries-delete, AllEntries-map, get-cons_self, get-set_self,
}
use xdb.DataModels.Sequences.{
  StateExecutionSequenceMaps, or_zero, or_false, next_sequence, add_pending,
  new_state_execution_sequence_maps, start_new_state_execution, close_state,
  complete_new_state_execution,
}
use xdb.DataModels.Sequences.View.{is_pending, started}

-- A sequence is in use under a counter.
abbrev pub IsCounted : ℕ → ℕ → Bool → Type 0
IsCounted n seq b = (b ≡ true) × (seq ≤ n)

abbrev pub IsCountedState : GoMap GoString ℕ → GoString → GoMap ℕ Bool → Type 0
IsCountedState counters a m = (m ≢ []) × AllEntries (IsCounted (or_zero (get counters a))) m

-- No state has an empty map of pending executions, and no pending sequence is above its counter.
abbrev pub IsValid : StateExecutionSequenceMaps → Type 0
IsValid s = AllEntries (IsCountedState s.sequence_map) s.pending_execution_map

pub new-IsValid : IsValid new_state_execution_sequence_maps
new-IsValid = tt

set-ne-nil : (m : GoMap ℕ Bool) (i : ℕ) (b : Bool) → set m i b ≢ []
unfolding set
set-ne-nil [] i b = λ e. cc
set-ne-nil ((j, c) ∷ m) i b = λ e. ground (arith, ℕ_discrete j i)

add_pending-IsCounted :
    (o : Option (GoMap ℕ Bool)) (n n' : ℕ)
    → AllEntries (IsCounted n) (or_empty o)
    → n ≤ n'
    → (add_pending o n' ≢ []) × AllEntries (IsCounted n') (add_pending o n')
unfolding add_pending
add_pending-IsCounted none n n' h le = (λ e. cc, ((refl, omega arith), tt))
add_pending-IsCounted (some m) n n' h le = (
  set-ne-nil m n' true,
  AllEntries-set (IsCounted n') m n' true
      (AllEntries-map (IsCounted n) (IsCounted n') m (λ i b c. (c.0, omega arith)) h)
      (refl, omega arith),
)

or_empty-IsCounted :
    (s : StateExecutionSequenceMaps) (a : GoString)
    → IsValid s
    → AllEntries (IsCounted (started s a)) (or_empty (get s.pending_execution_map a))
or_empty-IsCounted s a v = elim (Option-cases (get s.pending_execution_map a)) [
  | inl e ↦ rw e tt
  | inr (m, e) ↦
      rw e (get-AllEntries (IsCountedState s.sequence_map) s.pending_execution_map a m v e).1
]

IsCountedState-set :
    (c : GoMap GoString ℕ) (a b : GoString) (n : ℕ) (m : GoMap ℕ Bool)
    → or_zero (get c a) ≤ n
    → IsCountedState c b m
    → IsCountedState (set c a n) b m
IsCountedState-set c a b n m le h = (
  h.0,
  AllEntries-map (IsCounted (or_zero (get c b))) (IsCounted (or_zero (get (set c a n) b))) m
      (λ i x k. (k.0, rw (get-set c a b n) (ground (arith, k.1, le, string_discrete a b)))) h.1,
)

-- Starting an execution keeps the invariant, until a counter would wrap around.
pub start_new_state_execution-IsValid :
    (s : StateExecutionSequenceMaps) (a : GoString)
    → IsValid s
    → started s a + 1 < 2 ^ 64
    → IsValid (start_new_state_execution s a).0
unfolding start_new_state_execution
start_new_state_execution-IsValid s a v h =
    AllEntries-set (IsCountedState (set s.sequence_map a (next_sequence s a)))
      s.pending_execution_map a _
      (AllEntries-map (IsCountedState s.sequence_map) _ s.pending_execution_map
        (λ b m k. IsCountedState-set s.sequence_map a b (next_sequence s a) m (omega arith) k) v)
      (rw (get-set_self s.sequence_map a (next_sequence s a)) (
        add_pending-IsCounted (get s.pending_execution_map a) (started s a) (next_sequence s a)
          (or_empty-IsCounted s a v) (omega arith)))

close_state-IsValid :
    (c : GoMap GoString ℕ) (p : GoMap GoString (GoMap ℕ Bool)) (a : GoString) (m : GoMap ℕ Bool)
    → AllEntries (IsCountedState c) p
    → AllEntries (IsCounted (or_zero (get c a))) m
    → AllEntries (IsCountedState c) (close_state p a m)
unfolding close_state
close_state-IsValid c p a [] v h = AllEntries-delete (IsCountedState c) p a v
close_state-IsValid c p a (x ∷ m) v h = AllEntries-set (IsCountedState c) p a (x ∷ m) v (λ e. cc, h)

-- So does completing one.
pub complete_new_state_execution-IsValid :
    (s t : StateExecutionSequenceMaps) (a : GoString) (seq : ℕ)
    → IsValid s
    → complete_new_state_execution s a seq ≡ ok t
    → IsValid t
unfolding complete_new_state_execution
complete_new_state_execution-IsValid s t a seq v e = subst IsValid (ground arith) (
    close_state-IsValid s.sequence_map s.pending_execution_map a
      (delete (or_empty (get s.pending_execution_map a)) seq) v
      (AllEntries-delete (IsCounted (started s a)) _ seq (or_empty-IsCounted s a v)))

-- The sequence that the next execution of a state gets is not one of those that are running.
pub next_sequence_fresh :
    (s : StateExecutionSequenceMaps) (a : GoString)
    → IsValid s
    → started s a + 1 < 2 ^ 64
    → is_pending s a (next_sequence s a) ≡ false
next_sequence_fresh s a v h =
    let m = or_empty (get s.pending_execution_map a) in
    elim (Option-cases (get m (next_sequence s a))) [
      | inl e ↦ rw e
      | inr (b, e) ↦ absurd (
          omega (
            arith,
            (get-AllEntries (IsCounted (started s a)) m (next_sequence s a) b
                (or_empty-IsCounted s a v) e).1,
          ))
    ]

no_pending_of_nil :
    (p : GoMap GoString (GoMap ℕ Bool)) (a : GoString) (seq : ℕ)
    → p ≡ []
    → or_false (get (or_empty (get p a)) seq) ≡ false
unfolding get
no_pending_of_nil p a seq e = rw e

nil_of_no_pending :
    (c : GoMap GoString ℕ) (p : GoMap GoString (GoMap ℕ Bool))
    → AllEntries (IsCountedState c) p
    → ((a : GoString) (seq : ℕ) → or_false (get (or_empty (get p a)) seq) ≡ false)
    → p ≡ []
nil_of_no_pending c [] v h = refl
nil_of_no_pending c ((a, []) ∷ p) v h = absurd (v.0.0 refl)
nil_of_no_pending c ((a, (seq, b) ∷ m) ∷ p) v h =
    let pending : or_false (get (or_empty (get ((a, (seq, b) ∷ m) ∷ p) a)) seq) ≡ true =
      rw (get-cons_self a ((seq, b) ∷ m) p, get-cons_self seq b m) v.0.1.0.0 in
    absurd (cc (h a seq))

-- `len(PendingExecutionMap) == 0` says that no execution is running.
pub pending-eq-nil_iff :
    (s : StateExecutionSequenceMaps)
    → IsValid s
    → (s.pending_execution_map ≡ []) ↔ ((a : GoString) (seq : ℕ) → is_pending s a seq ≡ false)
pending-eq-nil_iff s v = (
  λ e a seq. no_pending_of_nil s.pending_execution_map a seq e,
  nil_of_no_pending s.sequence_map s.pending_execution_map v,
)
