-- ===== src/Engine/TimerTaskQueue/Firing.antt =====
-- sendAllFiredTimerTasksToProcessor of engine/timer_task_queue.go: the loop ends, and it splits the
-- heap into the tasks whose time has come and those that the firing gate waits for.
use xdb.Prelude.{
  ℕ, zero, suc, ◌≤◌, ◌<◌, arith, Bool, true, false, List, [], ◌∷◌, ◌++◌, some, ◌≡◌, refl, sym, ◌∙◌,
  leb, length, All, All-map, Bool-cases, inl, inr,
}
use xdb.Prelude.Maps.{is_empty}
use xdb.Database.Rows.{TimerTaskRow}
use xdb.Engine.TimerGate.{TimerGate, update}
use xdb.Engine.TimerGate.Alarm.{wakes_by, update-wakes_by, IsSound, update-IsSound}
use xdb.Engine.TimerHeap.{HeapPackage, SameItems, count_if_all, less}
use xdb.Engine.TimerTaskQueue.{
  TimerTaskQueue, from_unix, to_unix, send_loop, send_all_fired_timer_tasks_to_processor,
}

abbrev pub wakes_for : TimerGate → TimerTaskRow → Bool
wakes_for g t = wakes_by g (from_unix t.fire_time_unix_seconds)

-- The time of the task has come.
abbrev pub is_due : ℕ → TimerTaskRow → Bool
is_due now t = leb t.fire_time_unix_seconds (to_unix now)

pub wakes_by_later : (g : TimerGate) (t u : ℕ) → t ≤ u → wakes_by g t ≡ true → wakes_by g u ≡ true
wakes_by_later g t u le h = ground arith

-- A gate that wakes for the first of a heap wakes for all of it.
pub heap-wakes_for :
    (hp : HeapPackage) (g : TimerGate) (t : TimerTaskRow) (h : List TimerTaskRow)
    → hp.is_heap (t ∷ h) ≡ true
    → wakes_for g t ≡ true
    → All (λ u. wakes_for g u ≡ true) (t ∷ h)
heap-wakes_for hp g t h heap w = (
  w,
  All-map (λ u. less u t ≡ false) (λ u. wakes_for g u ≡ true) h
      (λ u k.
        wakes_by_later g (from_unix t.fire_time_unix_seconds) (from_unix u.fire_time_unix_seconds)
          (ground (arith, k)) w)
      (hp.first_least t h heap),
)

heap-is_due :
    (hp : HeapPackage) (now : ℕ) (t : TimerTaskRow) (h : List TimerTaskRow)
    → hp.is_heap (t ∷ h) ≡ true
    → is_due now t ≡ false
    → All (λ u. is_due now u ≡ false) (t ∷ h)
heap-is_due hp now t h heap w = (
  w,
  All-map (λ u. less u t ≡ false) (λ u. is_due now u ≡ false) h (λ u k. ground (arith, k, w))
      (hp.first_least t h heap),
)

pub length-SameItems : (xs ys : List TimerTaskRow) → SameItems xs ys → length xs ≡ length ys
length-SameItems xs ys s = sym (count_if_all xs) ∙ s (λ x. true) ∙ count_if_all ys

-- What the loop leaves behind when it stops in round `k`, started in round `i`.
pub record SplitAt (hp : HeapPackage) (now : ℕ → ℕ) (i : ℕ) (g : TimerGate)
    (heap sent rest : List TimerTaskRow) (g' : TimerGate) (k : ℕ) : Type 0 where
  pub rounds : i ≤ k
  pub same : SameItems (sent ++ rest) heap
  pub due : All (λ t. is_due (now k) t ≡ true) sent
  pub not_due : All (λ t. is_due (now k) t ≡ false) rest
  pub ordered : hp.is_heap rest ≡ true
  pub wakes : All (λ t. wakes_for g' t ≡ true) rest
  pub sound : IsSound g → IsSound g'

same_step :
    (hp : HeapPackage) (t : TimerTaskRow) (sent rest heap : List TimerTaskRow)
    → SameItems (sent ++ rest) (hp.pop t heap)
    → SameItems (t ∷ (sent ++ rest)) (t ∷ heap)
same_step hp t sent rest heap s p = let e = s p ∙ hp.pop_same t heap p in omega (arith, e)

is_due_later : (a b : ℕ) (t : TimerTaskRow) → a ≤ b → is_due a t ≡ true → is_due b t ≡ true
is_due_later a b t le h = ground arith

-- With fuel for each task and one more, the loop ends and splits the heap.
send_loop_lem :
    (hp : HeapPackage) (now : ℕ → ℕ)
    → ((a b : ℕ) → a ≤ b → now a ≤ now b)
    → (fuel i : ℕ) (g : TimerGate) (heap : List TimerTaskRow) → hp.is_heap heap ≡ true
    → length heap < fuel
    → (sent rest : List TimerTaskRow) × (g' : TimerGate) × (k : ℕ) × (send_loop hp fuel now i g heap
        ≡ some (sent, rest, g'))
      × SplitAt hp now i g heap sent rest g' k
unfolding send_loop
send_loop_lem hp now mono zero i g heap h lt = absurd (omega (arith, lt))
send_loop_lem hp now mono (suc fuel) i g [] h lt = (
  [],
  [],
  g,
  i,
  refl,
  record {
    rounds = omega arith;
    same = λ p. refl;
    due = tt;
    not_due = tt;
    ordered = h;
    wakes = tt;
    sound = λ s. s;
  },
)
send_loop_lem hp now mono (suc fuel) i g (t ∷ heap) h lt = elim (Bool-cases (is_due (now i) t)) [
  | inl come ↦
      let shorter = length-SameItems (hp.pop t heap) heap (hp.pop_same t heap) in
      let (sent, rest, g', k, ran, split) =
        send_loop_lem hp now mono fuel (suc i) g (hp.pop t heap) (hp.pop-is_heap t heap h)
          (omega (arith, shorter, lt)) in
      (
        t ∷ sent,
        rest,
        g',
        k,
        rw (come, ran) refl,
        record {
          rounds = omega (arith, split.rounds);
          same = same_step hp t sent rest heap split.same;
          due = (
            is_due_later (now i) (now k) t (mono i k (omega (arith, split.rounds))) come,
            split.due,
          );
          not_due = split.not_due;
          ordered = split.ordered;
          wakes = split.wakes;
          sound = split.sound;
        },
      )
  | inr early ↦
      let at = from_unix t.fire_time_unix_seconds in
      (
        [],
        t ∷ heap,
        (update g at).0,
        i,
        rw early refl,
        record {
          rounds = omega arith;
          same = λ p. refl;
          due = tt;
          not_due = heap-is_due hp (now i) t heap h early;
          ordered = h;
          wakes = heap-wakes_for hp (update g at).0 t heap h (update-wakes_by g at);
          sound = λ s. update-IsSound g at;
        },
      )
]

pub All-is_empty {ℓ κ} : {A : Type ℓ} (P : A → Type κ) (xs : List A) → is_empty xs ≡ true → All P xs
All-is_empty P [] e = tt
All-is_empty P (x ∷ xs) e = absurd (cc e)

-- The handler ends. It sends the tasks whose time has come at its last look at the clock, keeps the
-- others as a heap, changes nothing else, and leaves the firing gate set for each task that stays.
pub send_all_fired_timer_tasks_to_processor-splits :
    (hp : HeapPackage) (now : ℕ → ℕ) (q : TimerTaskQueue)
    → ((a b : ℕ) → a ≤ b → now a ≤ now b)
    → hp.is_heap q.remaining_to_fire_timers_heap ≡ true
    → (sent rest : List TimerTaskRow) × (g' : TimerGate) × (k : ℕ)
      × (send_all_fired_timer_tasks_to_processor hp now q
          ≡ some (sent, record q { remaining_to_fire_timers_heap = rest; next_firing_timer = g' }))
      × SplitAt hp now 0 q.next_firing_timer q.remaining_to_fire_timers_heap sent rest g' k
unfolding send_all_fired_timer_tasks_to_processor
send_all_fired_timer_tasks_to_processor-splits hp now q mono h =
    elim (Bool-cases (is_empty q.remaining_to_fire_timers_heap)) [
      | inl none_ ↦ (
        [],
        q.remaining_to_fire_timers_heap,
        q.next_firing_timer,
        0,
        rw none_ refl,
        record {
          rounds = omega arith;
          same = λ p. refl;
          due = tt;
          not_due = All-is_empty _ q.remaining_to_fire_timers_heap none_;
          ordered = h;
          wakes = All-is_empty _ q.remaining_to_fire_timers_heap none_;
          sound = λ s. s;
        },
      )
      | inr more ↦
          let (sent, rest, g', k, ran, split) =
            send_loop_lem hp now mono (suc (length q.remaining_to_fire_timers_heap)) 0
              q.next_firing_timer q.remaining_to_fire_timers_heap h (omega arith) in
          (sent, rest, g', k, rw (more, ran) refl, split)
    ]
