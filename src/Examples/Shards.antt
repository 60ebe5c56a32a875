-- ===== src/Examples/Shards.antt =====
-- An instance that owns the shards 1 and 2 is assigned the shards 2 and 3.
use xdb.Prelude.{ℕ, true, [], ◌∷◌, ok, ◌≡◌, refl, nat_key, arith, ℕ_discrete}
use xdb.Prelude.Maps.{get}
use xdb.Service.Shards.{AsyncService, re_balance}
use xdb.Service.Shards.Steps.{InStep}
use xdb.Service.Shards.Owning.{elem, after, re_balance-owns}

abbrev pub two_shards : AsyncService
two_shards = record {
  immediate_task_queue_map = (1, 7) ∷ (2, 7) ∷ [];
  timer_task_queue_map = (1, 7) ∷ (2, 7) ∷ [];
  wait_for_process_completion_channel_map = (1, 7) ∷ (2, 7) ∷ [];
  task_notifier = record {
    shard_id_to_immediate_task_queue = (1, 7) ∷ (2, 7) ∷ [];
    shard_id_to_timer_task_queue = (1, 7) ∷ (2, 7) ∷ [];
  };
  task_to_commit_chans = (1, 7) ∷ (2, 7) ∷ [];
  wait_for_process_completion_channels_per_shard_map = (1, 7) ∷ (2, 7) ∷ [];
  current_shards = (1, true) ∷ (2, true) ∷ [];
}

pub two_shards-InStep : InStep two_shards
unfolding get ℕ_discrete
two_shards-InStep = record {
  unique = (refl, (refl, tt));
  timers = λ s. refl;
  channels = λ s. refl;
  notified = λ s. refl;
  notified_timers = λ s. refl;
  commits = λ s. refl;
  signals = λ s. refl;
  processed = λ s. ground arith;
}

owns_example :
    (a' : AsyncService) × (re_balance 8 (2 ∷ 3 ∷ []) two_shards ≡ ok a')
    × InStep a'
    × ((s : ℕ)
        → get a'.immediate_task_queue_map s
          ≡ after (elem s (2 ∷ 3 ∷ [])) (get two_shards.immediate_task_queue_map s) 8)
owns_example = re_balance-owns 8 (2 ∷ 3 ∷ []) two_shards two_shards-InStep
