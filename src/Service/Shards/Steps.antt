-- ===== src/Service/Shards/Steps.antt =====
-- service/async/service_impl.go: the maps of shards stay in step when shards are stopped and created.
use xdb.Prelude.{
  ℕ, Bool, true, Option, none, some, ok, nat_key, ◌≡◌, refl, sym, ◌∙◌, ite, ℕ_discrete, if_pos,
  if_neg, subst, Option-cases, inl, inr,
}
use xdb.Prelude.Maps.{
  GoMap, get, set, delete, get-set, get-delete, UniqueKeys, set-UniqueKeys, delete-UniqueKeys,
}
use xdb.Service.Shards.{
  AsyncService, create_queues_and_start, create_waiting_channels_and_start, stop_queues_and_remove,
  stop_waiting_channels_and_remove, stop_immediate, stop_timers, stop_channels,
}

abbrev pub registered : Option ℕ → Option Bool
registered none = none
registered (some _) = some true

-- The maps of shards say the same: the queues of each shard that is owned are registered with the
-- notifier and the processors, and no others.
pub record InStep (a : AsyncService) : Type 0 where
  pub unique : UniqueKeys a.immediate_task_queue_map
  pub timers : (s : ℕ) → get a.timer_task_queue_map s ≡ get a.immediate_task_queue_map s
  pub channels :
      (s : ℕ) → get a.wait_for_process_completion_channel_map s ≡ get a.immediate_task_queue_map s
  pub notified :
      (s : ℕ)
      → get a.task_notifier.shard_id_to_immediate_task_queue s ≡ get a.immediate_task_queue_map s
  pub notified_timers :
      (s : ℕ)
      → get a.task_notifier.shard_id_to_timer_task_queue s ≡ get a.immediate_task_queue_map s
  pub commits : (s : ℕ) → get a.task_to_commit_chans s ≡ get a.immediate_task_queue_map s
  pub signals :
      (s : ℕ)
      → get a.wait_for_process_completion_channels_per_shard_map s
        ≡ get a.immediate_task_queue_map s
  pub processed : (s : ℕ) → get a.current_shards s ≡ registered (get a.immediate_task_queue_map s)

-- The shards after a step
abbrev pub Sets : AsyncService → ℕ → Option ℕ → AsyncService → Type 0
Sets a shard q a' =
    InStep a'
    × ((s : ℕ)
        → get a'.immediate_task_queue_map s
          ≡ ite (ℕ_discrete shard s) q (get a.immediate_task_queue_map s))

get-deletes :
    (m m' : GoMap ℕ ℕ) (shard : ℕ)
    → ((s : ℕ) → get m' s ≡ get m s)
    → (s : ℕ) → get (delete m' shard) s ≡ get (delete m shard) s
get-deletes m m' shard h s = get-delete m' shard s ∙ rw (h s) (sym (get-delete m shard s))

get-sets :
    (m m' : GoMap ℕ ℕ) (shard q : ℕ)
    → ((s : ℕ) → get m' s ≡ get m s)
    → (s : ℕ) → get (set m' shard q) s ≡ get (set m shard q) s
get-sets m m' shard q h s = get-set m' shard s q ∙ rw (h s) (sym (get-set m shard s q))

deletes-registered :
    (m : GoMap ℕ ℕ) (b : GoMap ℕ Bool) (shard s : ℕ)
    → get b s ≡ registered (get m s)
    → get (delete b shard) s ≡ registered (get (delete m shard) s)
deletes-registered m b shard s h =
    rw (get-delete b shard s, get-delete m shard s)
      (elim (ℕ_discrete shard s) [
        | yes p ↦ rw (if_pos (ℕ_discrete shard s) p, if_pos (ℕ_discrete shard s) p) refl
        | no n ↦ rw (if_neg (ℕ_discrete shard s) n, if_neg (ℕ_discrete shard s) n) h
      ])

sets-registered :
    (m : GoMap ℕ ℕ) (b : GoMap ℕ Bool) (shard q s : ℕ)
    → get b s ≡ registered (get m s)
    → get (set b shard true) s ≡ registered (get (set m shard q) s)
sets-registered m b shard q s h =
    rw (get-set b shard s true, get-set m shard s q)
      (elim (ℕ_discrete shard s) [
        | yes p ↦ rw (if_pos (ℕ_discrete shard s) p, if_pos (ℕ_discrete shard s) p) refl
        | no n ↦ rw (if_neg (ℕ_discrete shard s) n, if_neg (ℕ_discrete shard s) n) h
      ])

stays_none :
    (m : GoMap ℕ ℕ) (shard s : ℕ)
    → get m shard ≡ none
    → get m s ≡ ite (ℕ_discrete shard s) none (get m s)
stays_none m shard s h = elim (ℕ_discrete shard s) [
  | yes p ↦ rw (if_pos (ℕ_discrete shard s) p) (subst (λ x. get m x ≡ none) p h)
  | no n ↦ rw (if_neg (ℕ_discrete shard s) n) refl
]

abbrev pub stop_shard : ℕ → AsyncService → AsyncService
stop_shard shard a = stop_waiting_channels_and_remove shard (stop_queues_and_remove shard a)

abbrev stopped : ℕ → AsyncService → AsyncService
stopped shard a =
    stop_channels (some 0) shard (stop_timers (some 0) shard (stop_immediate (some 0) shard a))

stopped-InStep : (a : AsyncService) (shard : ℕ) → InStep a → Sets a shard none (stopped shard a)
stopped-InStep a shard h = (
  record {
    unique = delete-UniqueKeys a.immediate_task_queue_map shard h.unique;
    timers = get-deletes a.immediate_task_queue_map _ shard h.timers;
    channels = get-deletes a.immediate_task_queue_map _ shard h.channels;
    notified = get-deletes a.immediate_task_queue_map _ shard h.notified;
    notified_timers = get-deletes a.immediate_task_queue_map _ shard h.notified_timers;
    commits = get-deletes a.immediate_task_queue_map _ shard h.commits;
    signals = get-deletes a.immediate_task_queue_map _ shard h.signals;
    processed = λ s. deletes-registered a.immediate_task_queue_map _ shard s (h.processed s);
  },
  λ s. get-delete a.immediate_task_queue_map shard s,
)

stop_shard-found :
    (a : AsyncService) (shard q : ℕ)
    → InStep a
    → get a.immediate_task_queue_map shard ≡ some q
    → stop_shard shard a ≡ stopped shard a
unfolding stop_queues_and_remove stop_waiting_channels_and_remove
stop_shard-found a shard q h e = rw (e, h.timers shard ∙ e, h.channels shard ∙ e) refl

stop_shard-missing :
    (a : AsyncService) (shard : ℕ)
    → InStep a
    → get a.immediate_task_queue_map shard ≡ none
    → stop_shard shard a ≡ a
unfolding stop_queues_and_remove stop_waiting_channels_and_remove
stop_shard-missing a shard h e = rw (e, h.timers shard ∙ e, h.channels shard ∙ e) refl

pub stop_shard-InStep :
    (a : AsyncService) (shard : ℕ) → InStep a → Sets a shard none (stop_shard shard a)
stop_shard-InStep a shard h = elim (Option-cases (get a.immediate_task_queue_map shard)) [
  | inl missing ↦
      rw (stop_shard-missing a shard h missing)
        (h, λ s. stays_none a.immediate_task_queue_map shard s missing)
  | inr (q, found) ↦ rw (stop_shard-found a shard q h found) (stopped-InStep a shard h)
]

abbrev created : ℕ → ℕ → AsyncService → AsyncService
created made shard a = record {
  immediate_task_queue_map = set a.immediate_task_queue_map shard made;
  timer_task_queue_map = set a.timer_task_queue_map shard made;
  wait_for_process_completion_channel_map =
      set a.wait_for_process_completion_channel_map shard made;
  task_notifier = record {
    shard_id_to_immediate_task_queue =
        set a.task_notifier.shard_id_to_immediate_task_queue shard made;
    shard_id_to_timer_task_queue = set a.task_notifier.shard_id_to_timer_task_queue shard made;
  };
  task_to_commit_chans = set a.task_to_commit_chans shard made;
  wait_for_process_completion_channels_per_shard_map =
      set a.wait_for_process_completion_channels_per_shard_map shard made;
  current_shards = set a.current_shards shard true;
}

created-InStep :
    (a : AsyncService) (made shard : ℕ) → InStep a → Sets a shard (some made) (created made shard a)
created-InStep a made shard h = (
  record {
    unique = set-UniqueKeys a.immediate_task_queue_map shard made h.unique;
    timers = get-sets a.immediate_task_queue_map _ shard made h.timers;
    channels = get-sets a.immediate_task_queue_map _ shard made h.channels;
    notified = get-sets a.immediate_task_queue_map _ shard made h.notified;
    notified_timers = get-sets a.immediate_task_queue_map _ shard made h.notified_timers;
    commits = get-sets a.immediate_task_queue_map _ shard made h.commits;
    signals = get-sets a.immediate_task_queue_map _ shard made h.signals;
    processed = λ s. sets-registered a.immediate_task_queue_map _ shard made s (h.processed s);
  },
  λ s. get-set a.immediate_task_queue_map shard s made,
)

-- The queues and channels of a shard that is not owned
pub create_shard-InStep :
    (a : AsyncService) (made shard : ℕ)
    → InStep a
    → get a.immediate_task_queue_map shard ≡ none
    → (b : AsyncService) × (create_queues_and_start made shard a ≡ ok b)
      × Sets a shard (some made) (create_waiting_channels_and_start made shard b)
unfolding create_queues_and_start create_waiting_channels_and_start
create_shard-InStep a made shard h e =
    rw (h.notified shard ∙ e, h.notified_timers shard ∙ e, h.commits shard ∙ e)
      (_, refl, rw (h.signals shard ∙ e) (created-InStep a made shard h))
