-- ===== src/Engine/ImmediateTaskQueue/Counts.antt =====
-- pendingTaskSequenceToPage of engine/immediate_task_queue.go: how many sequences point to a page.
use xdb.Prelude.{
  ℕ, ◌+◌, arith, [], ◌∷◌, none, some, if◌then◌else◌, ◌==◌, GoMap, nat_key, ◌≡◌, refl, ℕ_discrete,
}
use xdb.Prelude.Maps.{get, set, delete, UniqueKeys}

-- The number of sequences that point to the page.
abbrev pub pending_of : ℕ → GoMap ℕ ℕ → ℕ
pending_of page [] = 0
pending_of page ((s, p) ∷ m) = (if p == page then 1 else 0) + pending_of page m

pub pending_of-set :
    (page : ℕ) (m : GoMap ℕ ℕ) (s p : ℕ)
    → get m s ≡ none
    → pending_of page (set m s p) ≡ (if p == page then 1 else 0) + pending_of page m
unfolding get set
pending_of-set page [] s p h = refl
pending_of-set page ((s', p') ∷ m) s p h =
    ground (arith, ℕ_discrete s' s, pending_of-set page m s p)

delete_missing : (m : GoMap ℕ ℕ) (s : ℕ) → get m s ≡ none → delete m s ≡ m
unfolding get delete
delete_missing [] s h = refl
delete_missing ((s', p') ∷ m) s h = ground (arith, ℕ_discrete s' s, delete_missing m s)

pub pending_of-delete :
    (page : ℕ) (m : GoMap ℕ ℕ) (s p : ℕ)
    → UniqueKeys m
    → get m s ≡ some p
    → pending_of page m ≡ (if p == page then 1 else 0) + pending_of page (delete m s)
unfolding get delete
pending_of-delete page [] s p u h = absurd (cc h)
pending_of-delete page ((s', p') ∷ m) s p u h =
    ground (arith, ℕ_discrete s' s, u.0, pending_of-delete page m s p u.1, delete_missing m s)
