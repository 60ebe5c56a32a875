-- ===== src/Service/Shards/Owning.antt =====
-- service/async/service_impl.go: ReBalance owns the shards that are assigned.
use xdb.Prelude.{
  ℕ, Bool, true, false, List, [], ◌∷◌, Option, none, some, ok, nat_key, ◌≡◌, refl, sym, ◌∙◌, ite,
  ℕ_discrete, if_pos, if_neg, subst, Option-cases, Bool-cases, inl, inr, ◌≢◌,
}
use xdb.Prelude.Maps.{
  GoMap, get, set, delete, get-set, get-delete_self, get-delete_ne, UniqueKeys, set-UniqueKeys,
  delete-UniqueKeys,
}
use xdb.Service.Shards.{
  AsyncService, assigned_shard_map, current_shards_to_remove, stop_all, create_all, re_balance,
  create_waiting_channels_and_start,
}
use xdb.Service.Shards.Steps.{InStep, stop_shard, stop_shard-InStep, create_shard-InStep}

abbrev pub elem : ℕ → List ℕ → Bool
elem s [] = false
elem s (t ∷ ts) = ite (ℕ_discrete t s) true (elem s ts)

-- The queue of a shard after ReBalance: `made` is a new one.
abbrev pub after : Bool → Option ℕ → ℕ → Option ℕ
after false q made = none
after true none made = some made
after true (some q) made = some q

abbrev or_true : Bool → Option Bool → Option Bool
or_true true x = some true
or_true false x = x

get-assigned_shard_map :
    (ss : List ℕ) (m : GoMap ℕ Bool) (s : ℕ)
    → get (assigned_shard_map ss m) s ≡ or_true (elem s ss) (get m s)
unfolding assigned_shard_map
get-assigned_shard_map [] m s = refl
get-assigned_shard_map (t ∷ ss) m s =
    get-assigned_shard_map ss (set m t true) s
    ∙ rw (get-set m t s true) (elim (ℕ_discrete t s) [
      | yes p ↦
          rw (if_pos (ℕ_discrete t s) p, if_pos (ℕ_discrete t s) p)
            (elim (Bool-cases (elem s ss)) [ inl y ↦ rw y refl | inr n ↦ rw n refl ])
      | no n ↦ rw (if_neg (ℕ_discrete t s) n, if_neg (ℕ_discrete t s) n) refl
    ])

assigned_shard_map-UniqueKeys :
    (ss : List ℕ) (m : GoMap ℕ Bool) → UniqueKeys m → UniqueKeys (assigned_shard_map ss m)
unfolding assigned_shard_map
assigned_shard_map-UniqueKeys [] m u = u
assigned_shard_map-UniqueKeys (t ∷ ss) m u =
    assigned_shard_map-UniqueKeys ss (set m t true) (set-UniqueKeys m t true u)

abbrev unless_owned : Option ℕ → Option Bool → Option Bool
unless_owned none x = x
unless_owned (some _) x = none

abbrev removed : Option ℕ → Option Bool → Bool
removed (some _) none = true
removed _ _ = false

get-here : {V : Type 0} (m : GoMap ℕ V) (t : ℕ) (q : V) → get ((t, q) ∷ m) t ≡ some q
unfolding get
get-here m t q = if_pos (ℕ_discrete t t) refl _ _

get-further :
    {V : Type 0} (m : GoMap ℕ V) (t : ℕ) (q : V) (s : ℕ) → t ≢ s → get ((t, q) ∷ m) s ≡ get m s
unfolding get
get-further m t q s n = if_neg (ℕ_discrete t s) n _ _

-- What the first loop finds
record SortsOut (m : GoMap ℕ ℕ) (assigned : GoMap ℕ Bool) (r : GoMap ℕ Bool × List ℕ) : Type 0 where
  unique : UniqueKeys r.0
  left : (s : ℕ) → get r.0 s ≡ unless_owned (get m s) (get assigned s)
  gone : (s : ℕ) → elem s r.1 ≡ removed (get m s) (get assigned s)

here_or_further : (P : ℕ → Type 0) (t s : ℕ) → P t → (t ≢ s → P s) → P s
here_or_further P t s h k = elim (ℕ_discrete t s) [ yes p ↦ subst P p h | no n ↦ k n ]

module _ (m : GoMap ℕ ℕ) (t q : ℕ) (assigned : GoMap ℕ Bool) (r : GoMap ℕ Bool × List ℕ)
    (fresh : get m t ≡ none) where
  SortsOut-removed :
      get assigned t ≡ none → SortsOut m assigned r → SortsOut ((t, q) ∷ m) assigned (r.0, t ∷ r.1)
  SortsOut-removed missing h = record {
    unique = h.unique;
    left = λ s.
        here_or_further (λ x. get r.0 x ≡ unless_owned (get ((t, q) ∷ m) x) (get assigned x)) t s
          (rw (get-here m t q) (h.left t ∙ rw (fresh, missing) refl))
          (λ n. rw (get-further m t q s n) (h.left s));
    gone = λ s.
        here_or_further (λ x. elem x (t ∷ r.1) ≡ removed (get ((t, q) ∷ m) x) (get assigned x)) t s
          (rw (get-here m t q, missing, if_pos (ℕ_discrete t t) refl) refl)
          (λ n. rw (get-further m t q s n, if_neg (ℕ_discrete t s) n) (h.gone s));
  }

  SortsOut-kept :
      (b : Bool)
      → get assigned t ≡ some b
      → SortsOut m (delete assigned t) r
      → SortsOut ((t, q) ∷ m) assigned r
  SortsOut-kept b found h = record {
    unique = h.unique;
    left = λ s.
        here_or_further (λ x. get r.0 x ≡ unless_owned (get ((t, q) ∷ m) x) (get assigned x)) t s
          (rw (get-here m t q) (h.left t ∙ rw (fresh, get-delete_self assigned t) refl))
          (λ n. rw (get-further m t q s n) (h.left s ∙ rw (get-delete_ne assigned t s n) refl));
    gone = λ s.
        here_or_further (λ x. elem x r.1 ≡ removed (get ((t, q) ∷ m) x) (get assigned x)) t s
          (rw (get-here m t q, found) (h.gone t ∙ rw fresh refl))
          (λ n. rw (get-further m t q s n) (h.gone s ∙ rw (get-delete_ne assigned t s n) refl));
  }

current_shards_to_remove-SortsOut :
    (m : GoMap ℕ ℕ) (assigned : GoMap ℕ Bool)
    → UniqueKeys m
    → UniqueKeys assigned
    → SortsOut m assigned (current_shards_to_remove m assigned)
unfolding current_shards_to_remove get
current_shards_to_remove-SortsOut [] assigned u v = record {
  unique = v;
  left = λ s. refl;
  gone = λ s. refl;
}
current_shards_to_remove-SortsOut ((t, q) ∷ m) assigned u v = elim (Option-cases (get assigned t)) [
  | inl missing ↦ rw missing (
      SortsOut-removed m t q assigned _ u.0 missing
        (current_shards_to_remove-SortsOut m assigned u.1 v))
  | inr (b, found) ↦ rw found (
      SortsOut-kept m t q assigned _ u.0 b found (
        current_shards_to_remove-SortsOut m (delete assigned t) u.1
          (delete-UniqueKeys assigned t v)))
]

abbrev none_if : Bool → Option ℕ → Option ℕ
none_if true x = none
none_if false x = x

stop_all-InStep :
    (ss : List ℕ) (a : AsyncService)
    → InStep a
    → InStep (stop_all ss a)
      × ((s : ℕ)
          → get (stop_all ss a).immediate_task_queue_map s
            ≡ none_if (elem s ss) (get a.immediate_task_queue_map s))
unfolding stop_all
stop_all-InStep [] a h = (h, λ s. refl)
stop_all-InStep (t ∷ ss) a h =
    let (h', step) = stop_shard-InStep a t h in
    let (h'', rest) = stop_all-InStep ss (stop_shard t a) h' in
    (
      h'',
      λ s.
          rest s
          ∙ rw (step s) (elim (ℕ_discrete t s) [
            | yes p ↦
                rw (if_pos (ℕ_discrete t s) p, if_pos (ℕ_discrete t s) p)
                  (elim (Bool-cases (elem s ss)) [ inl y ↦ rw y refl | inr n ↦ rw n refl ])
            | no n ↦ rw (if_neg (ℕ_discrete t s) n, if_neg (ℕ_discrete t s) n) refl
          ]),
    )

abbrev made_if : Option Bool → ℕ → Option ℕ → Option ℕ
made_if none made q = q
made_if (some _) made q = some made

create_all-InStep :
    (made : ℕ) (m : GoMap ℕ Bool) (a : AsyncService)
    → InStep a
    → UniqueKeys m
    → ((s : ℕ) (b : Bool) → get m s ≡ some b → get a.immediate_task_queue_map s ≡ none)
    → (a' : AsyncService) × (create_all made m a ≡ ok a')
      × InStep a'
      × ((s : ℕ)
          → get a'.immediate_task_queue_map s
            ≡ made_if (get m s) made (get a.immediate_task_queue_map s))
unfolding create_all
create_all-InStep made [] a h u free = (a, refl, h, λ s. refl)
create_all-InStep made ((t, b) ∷ m) a h u free =
    let (c, one, (h', step)) = create_shard-InStep a made t h (free t b (get-here m t b)) in
    let others = λ (s : ℕ) (b' : Bool) (e : get m s ≡ some b').
      here_or_further
        (λ x.
          get m x ≡ some b'
          → get (create_waiting_channels_and_start made t c).immediate_task_queue_map x ≡ none)
        t s (λ q. absurd (cc (u.0, q)))
        (λ n q. step s ∙ rw (if_neg (ℕ_discrete t s) n) (free s b' (get-further m t b s n ∙ q)))
        e in
    let (a', all_, h'', rest) =
      create_all-InStep made m (create_waiting_channels_and_start made t c) h' u.1 others in
    (
      a',
      rw one all_,
      h'',
      λ s.
          rest s
          ∙ rw (step s) (
              here_or_further
                (λ x.
                  made_if (get m x) made
                    (ite (ℕ_discrete t x) (some made) (get a.immediate_task_queue_map x))
                  ≡ made_if (get ((t, b) ∷ m) x) made (get a.immediate_task_queue_map x))
                t s (rw (get-here m t b, u.0, if_pos (ℕ_discrete t t) refl) refl)
                (λ n. rw (get-further m t b s n, if_neg (ℕ_discrete t s) n) refl)),
    )

combined :
    (q : Option ℕ) (assigned : Bool) (made : ℕ)
    → made_if
        (unless_owned q (or_true assigned none))
        made
        (none_if (removed q (or_true assigned none)) q)
      ≡ after assigned q made
combined none true made = refl
combined none false made = refl
combined (some q) true made = refl
combined (some q) false made = refl

left_free :
    (q : Option ℕ) (x : Option Bool) (gone : Bool) (b : Bool)
    → unless_owned q x ≡ some b
    → none_if gone q ≡ none
left_free none x true b e = refl
left_free none x false b e = refl
left_free (some q) x gone b e = absurd (cc e)

-- Where the maps of shards say the same, ReBalance ends without a panic of the notifier and they say
-- the same again. The instance then owns the assigned shards and no others: it keeps the queues of the
-- shards that it owned before, and makes new ones for the others.
pub re_balance-owns :
    (made : ℕ) (assigned_shard_ids : List ℕ) (a : AsyncService)
    → InStep a
    → (a' : AsyncService) × (re_balance made assigned_shard_ids a ≡ ok a')
      × InStep a'
      × ((s : ℕ)
          → get a'.immediate_task_queue_map s
            ≡ after (elem s assigned_shard_ids) (get a.immediate_task_queue_map s) made)
unfolding re_balance get
re_balance-owns made ids a h =
    let assigned = assigned_shard_map ids [] in
    let lookup = λ (s : ℕ). get-assigned_shard_map ids [] s in
    let sorted =
      current_shards_to_remove-SortsOut a.immediate_task_queue_map assigned h.unique
        (assigned_shard_map-UniqueKeys ids [] tt) in
    let r = current_shards_to_remove a.immediate_task_queue_map assigned in
    let (h', stopped) = stop_all-InStep r.1 a h in
    let (a', done, h'', created) =
      create_all-InStep made r.0 (stop_all r.1 a) h' sorted.unique
        (λ s b e. stopped s ∙ left_free _ _ (elem s r.1) b (sym (sorted.left s) ∙ e)) in
    (
      a',
      done,
      h'',
      λ s.
          created s
          ∙ rw (stopped s, sorted.left s, sorted.gone s, lookup s)
              (combined (get a.immediate_task_queue_map s) (elem s ids) made),
    )
