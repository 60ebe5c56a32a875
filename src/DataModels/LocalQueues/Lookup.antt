-- ===== src/DataModels/LocalQueues/Lookup.antt =====
-- What the loops over the queue commands find, and how the two maps read after an update.
use xdb.Prelude.{
  ℕ, ◌≤◌, ◌<◌, ◌≡◌, ap, ◌∙◌, subst, arith, List, [], ◌∷◌, none, some, leb, GoMap, GoString, nat_key,
  string_key, string_discrete, ite, Bool-cases, Option-cases, inl, inr, ◌⊎◌,
}
use xdb.Prelude.Maps.{
  or_empty, get, get-set, get-delete, UniqueKeys, AllEntries, get-cons_self, get-cons_later,
}
use xdb.DataModels.LocalQueues.{
  LocalQueueCommand, InternalLocalQueueMessage, Commands, Messages, messages_of, put_messages,
  put_commands, find_in, find_command,
}

pub messages_of-put_messages :
    (m : Messages) (q j : GoString) (rest : List InternalLocalQueueMessage)
    → messages_of (put_messages m q rest) j ≡ ite (string_discrete q j) rest (messages_of m j)
unfolding put_messages
messages_of-put_messages m q j [] = rw (get-delete m q j) (ground arith)
messages_of-put_messages m q j (x ∷ xs) = rw (get-set m q j (x ∷ xs)) (ground arith)

pub get-put_commands :
    (m : Commands) (k j : GoString) (rest : GoMap ℕ LocalQueueCommand)
    → or_empty (get (put_commands m k rest) j) ≡ ite (string_discrete k j) rest (or_empty (get m j))
unfolding put_commands
get-put_commands m k j [] = rw (get-delete m k j) (ground arith)
get-put_commands m k j (x ∷ xs) = rw (get-set m k j (x ∷ xs)) (ground arith)

-- No key stands twice in the commands of a state, nor a state twice.
abbrev pub IsMap : Commands → Type 0
IsMap cs = UniqueKeys cs × AllEntries (λ key m. UniqueKeys m) cs

-- A command is served by `n` messages of a queue.
abbrev pub IsServed : GoString → ℕ → LocalQueueCommand → Type 0
IsServed queue n c = (c.queue_name ≡ queue) × (c.count ≤ n)

find_in-cons :
    (j i : ℕ) (d c : LocalQueueCommand) (m : GoMap ℕ LocalQueueCommand) (queue : GoString) (n : ℕ)
    → find_in ((j, d) ∷ m) queue n ≡ some (i, c)
    → ((j ≡ i) × (d ≡ c) × IsServed queue n d) ⊎ (find_in m queue n ≡ some (i, c))
unfolding find_in
find_in-cons j i d c m queue n e = elim (string_discrete d.queue_name queue) [
  | yes p ↦ elim (Bool-cases (leb d.count n)) [
    | inl fits ↦ inl (ground arith, ground arith, (p, ground arith))
    | inr large ↦ inr (ground arith)
  ]
  | no other ↦ inr (ground arith)
]

pub find_in-get :
    (m : GoMap ℕ LocalQueueCommand) (queue : GoString) (n i : ℕ) (c : LocalQueueCommand)
    → UniqueKeys m
    → find_in m queue n ≡ some (i, c)
    → (get m i ≡ some c) × IsServed queue n c
unfolding find_in
find_in-get [] queue n i c u e = absurd (cc e)
find_in-get ((j, d) ∷ m) queue n i c u e = elim (find_in-cons j i d c m queue n e) [
  | inl (p, q, s) ↦ (
    subst (λ x. get ((j, d) ∷ m) x ≡ some c) p (get-cons_self j d m ∙ ap some q),
    subst (IsServed queue n) q s,
  )
  | inr later ↦
      let (g, s) = find_in-get m queue n i c u.1 later in (get-cons_later j i d c m u.0 g, s)
]

pub find_in-none :
    (m : GoMap ℕ LocalQueueCommand) (queue : GoString) (n : ℕ)
    → find_in m queue n ≡ none
    → AllEntries (λ i c. c.queue_name ≡ queue → n < c.count) m
unfolding find_in
find_in-none [] queue n e = tt
find_in-none ((j, d) ∷ m) queue n e = (
  λ p. ground (arith, string_discrete d.queue_name queue),
  find_in-none m queue n (ground (arith, string_discrete d.queue_name queue)),
)

find_command-cons :
    (k key : GoString) (m : GoMap ℕ LocalQueueCommand) (cs : Commands) (queue : GoString) (n i : ℕ)
    (c : LocalQueueCommand)
    → find_command ((k, m) ∷ cs) queue n ≡ some (key, i, c)
    → ((k ≡ key) × (find_in m queue n ≡ some (i, c))) ⊎ (find_command cs queue n ≡ some (key, i, c))
unfolding find_command
find_command-cons k key m cs queue n i c e = elim (Option-cases (find_in m queue n)) [
  | inl missing ↦ inr (ground arith)
  | inr (r, here) ↦ inl (ground arith, ground arith)
]

-- The command that the loops find is one that its state waits for, and the messages serve it.
pub find_command-get :
    (cs : Commands) (queue key : GoString) (n i : ℕ) (c : LocalQueueCommand)
    → IsMap cs
    → find_command cs queue n ≡ some (key, i, c)
    → (m : GoMap ℕ LocalQueueCommand) × (get cs key ≡ some m)
      × (get m i ≡ some c)
      × (IsServed queue n c)
unfolding find_command
find_command-get [] queue key n i c u e = absurd (cc e)
find_command-get ((k, m) ∷ cs) queue key n i c u e =
    elim (find_command-cons k key m cs queue n i c e) [
      | inl (p, here) ↦
          let (g, r) = find_in-get m queue n i c u.1.0 here in
          (m, subst (λ x. get ((k, m) ∷ cs) x ≡ some m) p (get-cons_self k m cs), g, r)
      | inr later ↦
          let (m', g, g', r) = find_command-get cs queue key n i c (u.0.1, u.1.1) later in
          (m', get-cons_later k key m m' cs u.0.0 g, g', r)
    ]

-- If they find none, no command for the queue is served.
pub find_command-none :
    (cs : Commands) (queue : GoString) (n : ℕ)
    → find_command cs queue n ≡ none
    → AllEntries (λ key m. AllEntries (λ i c. c.queue_name ≡ queue → n < c.count) m) cs
unfolding find_command
find_command-none [] queue n e = tt
find_command-none ((k, m) ∷ cs) queue n e = elim (Option-cases (find_in m queue n)) [
  | inl h ↦ (find_in-none m queue n h, find_command-none cs queue n (ground arith))
  | inr (r, h) ↦ absurd (ground arith)
]
