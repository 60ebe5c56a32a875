-- ===== src/DataModels/LocalQueues/Settled/Consuming.antt =====
-- The loop of TryConsumeForStateExecution.
use xdb.Prelude.{
  ℕ, ◌+◌, ◌≤◌, ◌<◌, ◌≡◌, refl, sym, ap, ◌∙◌, subst, arith, Bool, true, false, not, ◌||◌, [], ◌∷◌,
  length, drop, length-drop, GoMap, GoString, nat_key, string_key, string_discrete, if_pos, if_neg,
  Bool-cases, Option-cases, inl, inr, ◌⊎◌, is_some, ltb, ℕ_discrete,
}
use xdb.Prelude.Maps.{
  or_empty, get, set, UniqueKeys, AllEntries, get-AllEntries, AllEntries-set, AllEntries-delete,
  AllEntries-map, set-UniqueKeys, delete-UniqueKeys,
}
use xdb.DataModels.LocalQueues.Lookup.{IsMap, messages_of-put_messages}
use xdb.DataModels.LocalQueues.{
  LocalQueueCommand, Commands, Messages, messages_of, put_messages, put_commands, Consuming,
  consume_one, consume_all,
}

-- A command asks for more messages than its queue holds.
abbrev pub Waits : Messages → ℕ → LocalQueueCommand → Type 0
Waits u i c = length (messages_of u c.queue_name) < c.count

pub put_commands-All :
    (P : ℕ → LocalQueueCommand → Type 0) (cs : Commands) (key : GoString)
    (m : GoMap ℕ LocalQueueCommand)
    → AllEntries (λ k m. AllEntries P m) cs
    → AllEntries P m
    → AllEntries (λ k m. AllEntries P m) (put_commands cs key m)
unfolding put_commands
put_commands-All P cs key [] h k = AllEntries-delete (λ k m. AllEntries P m) cs key h
put_commands-All P cs key (x ∷ m) h k = AllEntries-set (λ k m. AllEntries P m) cs key (x ∷ m) h k

pub or_empty-All :
    (P : ℕ → LocalQueueCommand → Type 0) (cs : Commands) (key : GoString)
    → AllEntries (λ k m. AllEntries P m) cs
    → AllEntries P (or_empty (get cs key))
or_empty-All P cs key h = elim (Option-cases (get cs key)) [
  | inl e ↦ rw e tt
  | inr (m, e) ↦ rw e (get-AllEntries (λ k m. AllEntries P m) cs key m h e)
]

pub put_commands-IsMap :
    (cs : Commands) (key : GoString) (m : GoMap ℕ LocalQueueCommand)
    → IsMap cs
    → UniqueKeys m
    → IsMap (put_commands cs key m)
unfolding put_commands
put_commands-IsMap cs key [] h k =
    (delete-UniqueKeys cs key h.0, AllEntries-delete (λ k m. UniqueKeys m) cs key h.1)
put_commands-IsMap cs key (x ∷ m) h k =
    (set-UniqueKeys cs key (x ∷ m) h.0, AllEntries-set (λ k m. UniqueKeys m) cs key (x ∷ m) h.1 k)

length-set-le :
    (m : GoMap ℕ LocalQueueCommand) (i : ℕ) (c : LocalQueueCommand)
    → length (set m i c) ≤ length m + 1
unfolding set
length-set-le [] i c = omega arith
length-set-le ((j, d) ∷ m) i c = ground (arith, length-set-le m i c, ℕ_discrete j i)

abbrev leaves : Consuming → LocalQueueCommand → Bool
leaves r c =
    r.stop
    || not (is_some (get r.unconsumed c.queue_name))
    || ltb (length (messages_of r.unconsumed c.queue_name)) c.count

leaves-Waits :
    (r : Consuming) (i : ℕ) (c : LocalQueueCommand)
    → 0 < c.count
    → r.stop ≡ false
    → leaves r c ≡ true
    → Waits r.unconsumed i c
leaves-Waits r i c h s e = elim (Option-cases (get r.unconsumed c.queue_name)) [
  | inl missing ↦ rw missing h
  | inr (xs, found) ↦ ground arith
]

-- A round either leaves the command, which then waits if the loop has not stopped, or takes its
-- messages and leaves the remaining commands as they are.
consume_one_cases :
    (any : Bool) (r : Consuming) (i : ℕ) (c : LocalQueueCommand)
    → 0 < c.count
    → ((consume_one any r i c ≡ record r { remaining = set r.remaining i c })
        × (r.stop ≡ false → Waits r.unconsumed i c))
      ⊎ ((r.stop ≡ false)
          × ((consume_one any r i c).remaining ≡ r.remaining)
          × ((consume_one any r i c).stop ≡ any)
          × ((consume_one any r i c).unconsumed
              ≡ put_messages r.unconsumed c.queue_name
                  (drop c.count (messages_of r.unconsumed c.queue_name))))
unfolding consume_one
consume_one_cases any r i c h = elim (Bool-cases (leaves r c)) [
  | inl left ↦ inl (rw left, λ s. leaves-Waits r i c h s left)
  | inr goes ↦ inr (ground arith, rw goes, ground arith, rw goes)
]

length-put_messages-le :
    (u : Messages) (q j : GoString) (n : ℕ)
    → length (messages_of (put_messages u q (drop n (messages_of u q))) j)
      ≤ length (messages_of u j)
length-put_messages-le u q j n =
    rw (messages_of-put_messages u q j (drop n (messages_of u q))) (elim (string_discrete q j) [
      | yes p ↦ rw (if_pos _ p) (
          subst (λ x. length (drop n (messages_of u q)) ≤ length (messages_of u x)) p
            (omega (arith, length-drop n (messages_of u q))))
      | no n' ↦ rw (if_neg _ n') (omega arith)
    ])

consume_one-shrinks :
    (any : Bool) (r : Consuming) (i : ℕ) (c : LocalQueueCommand) (j : GoString)
    → 0 < c.count
    → length (messages_of (consume_one any r i c).unconsumed j)
      ≤ length (messages_of r.unconsumed j)
consume_one-shrinks any r i c j h = elim (consume_one_cases any r i c h) [
  | inl (e, _) ↦ rw e (omega arith)
  | inr (_, _, _, e) ↦ rw e (length-put_messages-le r.unconsumed c.queue_name j c.count)
]

-- No queue grows in the loop.
pub consume_all-shrinks :
    (any : Bool) (r : Consuming) (m : GoMap ℕ LocalQueueCommand) (j : GoString)
    → AllEntries (λ i c. 0 < c.count) m
    → length (messages_of (consume_all any r m).unconsumed j) ≤ length (messages_of r.unconsumed j)
unfolding consume_all
consume_all-shrinks any r [] j h = omega arith
consume_all-shrinks any r ((i, c) ∷ m) j h = omega (
  arith,
  consume_all-shrinks any (consume_one any r i c) m j h.1,
  consume_one-shrinks any r i c j h.0,
)

length-consume_one :
    (any : Bool) (r : Consuming) (i : ℕ) (c : LocalQueueCommand)
    → 0 < c.count
    → length (consume_one any r i c).remaining ≤ length r.remaining + 1
length-consume_one any r i c h = elim (consume_one_cases any r i c h) [
  | inl (e, _) ↦ rw e (length-set-le r.remaining i c)
  | inr (_, e, _, _) ↦ rw e (omega arith)
]

length-consume_all :
    (any : Bool) (r : Consuming) (m : GoMap ℕ LocalQueueCommand)
    → AllEntries (λ i c. 0 < c.count) m
    → length (consume_all any r m).remaining ≤ length r.remaining + length m
unfolding consume_all
length-consume_all any r [] h = omega arith
length-consume_all any r ((i, c) ∷ m) h =
    omega (
      arith,
      length-consume_all any (consume_one any r i c) m h.1,
      length-consume_one any r i c h.0,
    )

-- If as many commands remain as there were, every one of them waits and no message was taken.
pub consume_all_idle :
    (any : Bool) (r : Consuming) (m : GoMap ℕ LocalQueueCommand)
    → AllEntries (λ i c. 0 < c.count) m
    → r.stop ≡ false
    → length (consume_all any r m).remaining ≡ length r.remaining + length m
    → ((consume_all any r m).unconsumed ≡ r.unconsumed) × AllEntries (Waits r.unconsumed) m
unfolding consume_all
consume_all_idle any r [] h s e = (refl, tt)
consume_all_idle any r ((i, c) ∷ m) h s e = elim (consume_one_cases any r i c h.0) [
  | inl (same, waits) ↦
      let r' = consume_one any r i c in
      let p : r'.unconsumed ≡ r.unconsumed = ap (λ (x : Consuming). x.unconsumed) same in
      let (kept, wait) =
        consume_all_idle any r' m h.1 (ap (λ (x : Consuming). x.stop) same ∙ s)
          (omega (arith, length-consume_all any r' m h.1, length-consume_one any r i c h.0)) in
      (kept ∙ p, (waits s, subst (λ u. AllEntries (Waits u) m) p wait))
  | inr (_, same, _, _) ↦
      absurd (omega (arith, length-consume_all any (consume_one any r i c) m h.1, ap length same))
]

-- Under ALL_OF_COMPLETION what remains waits.
pub consume_all-Waits :
    (r : Consuming) (m : GoMap ℕ LocalQueueCommand)
    → AllEntries (λ i c. 0 < c.count) m
    → r.stop ≡ false
    → AllEntries (Waits r.unconsumed) r.remaining
    → AllEntries (Waits (consume_all false r m).unconsumed) (consume_all false r m).remaining
unfolding consume_all
consume_all-Waits r [] h s w = w
consume_all-Waits r ((i, c) ∷ m) h s w = elim (consume_one_cases false r i c h.0) [
  | inl (same, waits) ↦
      consume_all-Waits (consume_one false r i c) m h.1 (ap (λ (x : Consuming). x.stop) same ∙ s) (
        subst (λ (x : Consuming). AllEntries (Waits x.unconsumed) x.remaining) (sym same)
          (AllEntries-set (Waits r.unconsumed) r.remaining i c w (waits s)))
  | inr (_, same, stop, took) ↦ consume_all-Waits (consume_one false r i c) m h.1 stop (
      rw same (
        AllEntries-map (Waits r.unconsumed) (Waits (consume_one false r i c).unconsumed) r.remaining
          (λ k d x. omega (arith, consume_one-shrinks false r i c d.queue_name h.0)) w))
]
