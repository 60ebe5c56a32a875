-- ===== src/Engine/TimerHeap.antt =====
-- engine/timer_task_priority_queue.go. Its methods serve container/heap, which is an interface here:
-- the operations on a slice, with the laws that its documentation gives.
use xdb.Prelude.{
  ℕ, ◌+◌, arith, Bool, true, false, List, [], ◌∷◌, ◌++◌, ◌≡◌, if◌then◌else◌, ltb, All, Bool-cases,
  inl, inr, length, ◌∙◌,
}
use xdb.Database.Rows.{TimerTaskRow}

-- Less
abbrev pub less : TimerTaskRow → TimerTaskRow → Bool
less a b = ltb a.fire_time_unix_seconds b.fire_time_unix_seconds

abbrev pub count_if {ℓ} : {A : Type ℓ} → (A → Bool) → List A → ℕ
count_if p [] = 0
count_if p (x ∷ xs) = (if p x then 1 else 0) + count_if p xs

-- The same tasks, in any order.
abbrev pub SameItems {ℓ} : {A : Type ℓ} → List A → List A → Type ℓ
SameItems {A = A} xs ys = (p : A → Bool) → count_if p xs ≡ count_if p ys

-- The slice is a heap of `is_heap`. heap.Pop takes the first of the slice, and `pop` is what is left.
pub record HeapPackage : Type 0 where
  pub init : List TimerTaskRow → List TimerTaskRow
  pub push : List TimerTaskRow → TimerTaskRow → List TimerTaskRow
  pub pop : TimerTaskRow → List TimerTaskRow → List TimerTaskRow
  pub is_heap : List TimerTaskRow → Bool
  pub nil-is_heap : is_heap [] ≡ true
  pub init-is_heap : (ts : List TimerTaskRow) → is_heap (init ts) ≡ true
  pub push-is_heap :
      (h : List TimerTaskRow) (t : TimerTaskRow) → is_heap h ≡ true → is_heap (push h t) ≡ true
  pub pop-is_heap :
      (t : TimerTaskRow) (h : List TimerTaskRow) → is_heap (t ∷ h) ≡ true → is_heap (pop t h) ≡ true
  pub init_same : (ts : List TimerTaskRow) → SameItems (init ts) ts
  pub push_same : (h : List TimerTaskRow) (t : TimerTaskRow) → SameItems (push h t) (t ∷ h)
  pub pop_same : (t : TimerTaskRow) (h : List TimerTaskRow) → SameItems (pop t h) h
  pub first_least :
      (t : TimerTaskRow) (h : List TimerTaskRow)
      → is_heap (t ∷ h) ≡ true
      → All (λ u. less u t ≡ false) h

-- NewTimerTaskPriorityQueue
abbrev pub new_timer_task_priority_queue : HeapPackage → List TimerTaskRow → List TimerTaskRow
new_timer_task_priority_queue hp tasks = hp.init tasks

count_if-All {ℓ} :
    {A : Type ℓ} (p : A → Bool) (xs : List A)
    → All (λ x. p x ≡ true) xs
    → count_if (λ x. if p x then false else true) xs ≡ 0
count_if-All p [] h = omega arith
count_if-All p (x ∷ xs) h = let rest = count_if-All p xs h.1 in rw h.0 (omega arith)

All-count_if {ℓ} :
    {A : Type ℓ} (p : A → Bool) (xs : List A)
    → count_if (λ x. if p x then false else true) xs ≡ 0
    → All (λ x. p x ≡ true) xs
All-count_if p [] h = tt
All-count_if p (x ∷ xs) h = elim (Bool-cases (p x)) [
  | inl e ↦ (e, All-count_if p xs (omega (arith, h)))
  | inr e ↦ absurd (ground (arith, h, e))
]

pub All-SameItems {ℓ} :
    {A : Type ℓ} (p : A → Bool) (xs ys : List A)
    → SameItems xs ys
    → All (λ x. p x ≡ true) ys
    → All (λ x. p x ≡ true) xs
All-SameItems p xs ys s h =
    All-count_if p xs (s (λ x. if p x then false else true) ∙ count_if-All p ys h)

pub count_if-append {ℓ} :
    {A : Type ℓ} (p : A → Bool) (xs ys : List A)
    → count_if p (xs ++ ys) ≡ count_if p xs + count_if p ys
count_if-append p [] ys = omega arith
count_if-append p (x ∷ xs) ys = omega (arith, count_if-append p xs ys)

pub count_if_all {ℓ} : {A : Type ℓ} (xs : List A) → count_if (λ x. true) xs ≡ length xs
count_if_all [] = omega arith
count_if_all (x ∷ xs) = omega (arith, count_if_all xs)
