-- ===== src/Engine/ImmediateTaskQueue/Accounting.antt =====
-- immediateTaskQueueImpl of engine/immediate_task_queue.go: the pending count of a page is the
-- number of its tasks that are still pending, between any two handlers.
use xdb.Prelude.{
  ℕ, suc, ◌+◌, ◌^◌, ◌≤◌, ◌<◌, arith, List, [], ◌∷◌, ◌++◌, Option, none, some, if◌then◌else◌, ◌==◌,
  length, GoMap, nat_key, ok, ◌≡◌, refl, sym, ap, ◌∙◌, subst, ℕ_discrete, if_pos, Option-cases, inl,
  inr,
}
use xdb.Prelude.Maps.{
  get, set, delete, UniqueKeys, set-UniqueKeys, delete-UniqueKeys, AllEntries, AllEntries-set,
  AllEntries-delete, AllEntries-map, get-AllEntries, get-set, get-set_ne,
}
use xdb.Database.Rows.{ImmediateTaskRow}
use xdb.Process.Pages.{immediate_response, last_sequence}
use xdb.Engine.ImmediateTaskPages.{ImmediateTaskPage}
use xdb.Engine.ImmediateTaskQueue.Counts.{pending_of, pending_of-set, pending_of-delete}
use xdb.Engine.ImmediateTaskQueue.{
  ImmediateTaskQueue, point_to, new_page, dispatch, poll_and_dispatch_and_prepare_next, decrement,
  count_down, complete_on_page, complete_at, receive_completed_task,
}

-- What the process store answers to a read from a cursor: rows with growing sequences.
abbrev pub Ascending : ℕ → List ImmediateTaskRow → Type 0
Ascending cursor [] = Unit
Ascending cursor (t ∷ ts) = (cursor ≤ t.task_sequence) × Ascending (t.task_sequence + 1) ts

-- The pending count of a page counts `n` sequences, and is an int; no page counts none.
abbrev pub Accounts : Option ImmediateTaskPage → ℕ → Type 0
Accounts none n = n ≡ 0
Accounts (some page) n = (page.pending_count ≡ n) × (n < 2 ^ 63)

abbrev pub IsValid : ImmediateTaskQueue → Type 0
IsValid q =
    UniqueKeys q.pending_task_sequence_to_page
    × AllEntries (λ s p. s < q.current_read_cursor) q.pending_task_sequence_to_page
    × AllEntries (λ p page. p < q.next_page) q.pages
    × ((p : ℕ) → Accounts (get q.pages p) (pending_of p q.pending_task_sequence_to_page))

get-above :
    {V : Type 0} (m : GoMap ℕ V) (bound s : ℕ)
    → AllEntries (λ i v. i < bound) m
    → bound ≤ s
    → get m s ≡ none
get-above m bound s h le = elim (Option-cases (get m s)) [
  | inl e ↦ e
  | inr (v, e) ↦ absurd (omega (arith, le, get-AllEntries (λ i v. i < bound) m s v h e))
]

below_map :
    {V : Type 0} (m : GoMap ℕ V) (a b : ℕ)
    → a ≤ b
    → AllEntries (λ i v. i < a) m
    → AllEntries (λ i v. i < b) m
below_map m a b le h = AllEntries-map (λ i v. i < a) (λ i v. i < b) m (λ i v k. omega arith) h

below_set :
    (p : ℕ) (m : GoMap ℕ ℕ) (cursor s : ℕ)
    → cursor ≤ s
    → AllEntries (λ i v. i < cursor) m
    → AllEntries (λ i v. i < s + 1) (set m s p)
below_set p m cursor s le h =
    AllEntries-set (λ i v. i < s + 1) m s p (below_map m cursor (s + 1) (omega arith) h)
      (omega arith)

-- Pointing the tasks of a read to a page: the keys stay unique and below the next cursor, and the
-- page has all of them.
point_to_lem :
    (p : ℕ) (t : ImmediateTaskRow) (ts : List ImmediateTaskRow) (m : GoMap ℕ ℕ) (cursor : ℕ)
    → Ascending cursor (t ∷ ts)
    → UniqueKeys m
    → AllEntries (λ s q. s < cursor) m
    → UniqueKeys (point_to p (t ∷ ts) m)
      × AllEntries (λ s q. s < last_sequence t ts + 1) (point_to p (t ∷ ts) m)
      × ((page : ℕ)
          → pending_of page (point_to p (t ∷ ts) m)
            ≡ (if p == page then length (t ∷ ts) else 0) + pending_of page m)
unfolding point_to
point_to_lem p t [] m cursor a u b =
    let fresh = get-above m cursor t.task_sequence b a.0 in
    (
      set-UniqueKeys m t.task_sequence p u,
      below_set p m cursor t.task_sequence a.0 b,
      λ page. pending_of-set page m t.task_sequence p fresh,
    )
point_to_lem p t (t2 ∷ ts) m cursor a u b =
    let fresh = get-above m cursor t.task_sequence b a.0 in
    let (u2, b2, n2) =
      point_to_lem p t2 ts (set m t.task_sequence p) (t.task_sequence + 1) a.1
        (set-UniqueKeys m t.task_sequence p u) (below_set p m cursor t.task_sequence a.0 b) in
    (u2, b2, λ page. ground (arith, n2 page, pending_of-set page m t.task_sequence p fresh))

account_new :
    (pages : GoMap ℕ ImmediateTaskPage) (new : ImmediateTaskPage) (next p n n' count : ℕ)
    → AllEntries (λ i v. i < next) pages
    → Accounts (get pages p) n
    → n' ≡ (if next == p then count else 0) + n
    → new.pending_count ≡ count
    → count < 2 ^ 63
    → Accounts (get (set pages next new) p) n'
account_new pages new next p n n' count below h e c lt = elim (ℕ_discrete next p) [
  | yes same ↦
      let zero_ : n ≡ 0 =
        subst (λ o. Accounts o n) (get-above pages next p below (omega (arith, same))) h in
      rw (get-set pages next p new, if_pos (ℕ_discrete next p) same)
        (ground (arith, same, zero_, e, c), ground (arith, same, zero_, e, lt))
  | no other ↦
      rw (get-set_ne pages next p new other)
        (subst (Accounts (get pages p)) (ground (arith, other, e)) h)
]

-- A poll that is answered with fewer than 2^63 rows of growing sequences from the cursor on keeps
-- the accounting.
pub poll_and_dispatch_and_prepare_next-IsValid :
    (q : ImmediateTaskQueue) (ts : List ImmediateTaskRow)
    → IsValid q
    → Ascending q.current_read_cursor ts
    → length ts < 2 ^ 63
    → IsValid (poll_and_dispatch_and_prepare_next (ok (immediate_response ts)) q).0
unfolding poll_and_dispatch_and_prepare_next dispatch
poll_and_dispatch_and_prepare_next-IsValid q [] v a lt = v
poll_and_dispatch_and_prepare_next-IsValid q (t ∷ ts) (u, b, below, acc) a lt =
    let (u', b', n') =
      point_to_lem q.next_page t ts q.pending_task_sequence_to_page q.current_read_cursor a u b in
    (
      u',
      b',
      AllEntries-set (λ i v. i < suc q.next_page) q.pages q.next_page _
          (below_map q.pages q.next_page (suc q.next_page) (omega arith) below) (omega arith),
      λ p.
          account_new q.pages (new_page (immediate_response (t ∷ ts))) q.next_page p _ _
            (length (t ∷ ts)) below (acc p) (n' p) refl lt,
    )

decrement_suc : (n : ℕ) → n < 2 ^ 63 → decrement (1 + n) ≡ n
decrement_suc n h = omega arith

-- A page to which a sequence points is there, and counts that sequence.
page_there :
    (o : Option ImmediateTaskPage) (n m : ℕ)
    → Accounts o n
    → n ≡ 1 + m
    → (page : ImmediateTaskPage) × (o ≡ some page) × (page.pending_count ≡ 1 + m) × (m < 2 ^ 63)
page_there none n m h e = absurd (omega (arith, h, e))
page_there (some page) n m h e = (page, refl, h.0 ∙ e, omega (arith, h.1, e))

account_less :
    (pages : GoMap ℕ ImmediateTaskPage) (page : ImmediateTaskPage) (address p n n' m : ℕ)
    → Accounts (get pages p) n
    → n ≡ (if address == p then 1 else 0) + n'
    → (address ≡ p → n' ≡ m)
    → page.pending_count ≡ m
    → m < 2 ^ 63
    → Accounts (get (set pages address page) p) n'
account_less pages page address p n n' m h e mine c lt = elim (ℕ_discrete address p) [
  | yes same ↦
      rw (get-set pages address p page, if_pos (ℕ_discrete address p) same)
        (c ∙ sym (mine same), omega (arith, mine same, lt))
  | no other ↦
      rw (get-set_ne pages address p page other)
        (subst (Accounts (get pages p)) (ground (arith, other, e)) h)
]

-- In a valid queue, receiving a pending task succeeds without a panic, takes the task off the map,
-- keeps the queue valid, and completes the page just when no other sequence points to it.
pub receive_completed_task-completes :
    (q : ImmediateTaskQueue) (sequence address : ℕ)
    → IsValid q
    → get q.pending_task_sequence_to_page sequence ≡ some address
    → (q' : ImmediateTaskQueue) × (receive_completed_task q sequence ≡ ok q')
      × IsValid q'
      × (q'.pending_task_sequence_to_page ≡ delete q.pending_task_sequence_to_page sequence)
      × (q'.completed_pages ≡ (
          if pending_of address (delete q.pending_task_sequence_to_page sequence) == 0
          then q.completed_pages ++ address ∷ []
          else q.completed_pages))
unfolding receive_completed_task complete_at complete_on_page
receive_completed_task-completes q sequence address (u, b, below, acc) found =
    let rest = delete q.pending_task_sequence_to_page sequence in
    let counted : pending_of address q.pending_task_sequence_to_page ≡ 1 + pending_of address rest =
      ground (
        arith,
        pending_of-delete address q.pending_task_sequence_to_page sequence address u found,
      ) in
    let (page, there, count, lt) = page_there (get q.pages address) _ _ (acc address) counted in
    let down : decrement page.pending_count ≡ pending_of address rest =
      ap decrement count ∙ decrement_suc (pending_of address rest) lt in
    (
      _,
      rw (found, there) refl,
      (
        delete-UniqueKeys q.pending_task_sequence_to_page sequence u,
        AllEntries-delete (λ s p. s < q.current_read_cursor) q.pending_task_sequence_to_page
            sequence b,
        AllEntries-set (λ p v. p < q.next_page) q.pages address (count_down page) below
            (get-AllEntries (λ p v. p < q.next_page) q.pages address page below there),
        λ p.
            account_less q.pages (count_down page) address p _ _ (pending_of address rest) (acc p)
              (pending_of-delete p q.pending_task_sequence_to_page sequence address u found)
              (λ e. ap (λ x. pending_of x rest) (sym e)) down lt,
      ),
      refl,
      ap (λ n. if n == 0 then q.completed_pages ++ address ∷ [] else q.completed_pages) down,
    )
