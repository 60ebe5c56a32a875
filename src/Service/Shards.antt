-- ===== src/Service/Shards.antt =====
-- ReBalance of service/async/service_impl.go, with task_notifier_impl.go and the maps of shards that
-- the processors of engine/ keep. A queue and a set of channels are the number of the re-balancing
-- that made them. Locks, logging and the timers of the queues are left out.
pub mod Steps
pub mod Owning
use xdb.Prelude.{
  ℕ, Bool, true, List, [], ◌∷◌, Option, none, some, Result, ok, err, panic, ◌>>=◌, nat_key,
}
use xdb.Prelude.Maps.{GoMap, get, set, delete}

-- taskNotifierImpl
pub record TaskNotifier : Type 0 where
  pub shard_id_to_immediate_task_queue : GoMap ℕ ℕ
  pub shard_id_to_timer_task_queue : GoMap ℕ ℕ

-- asyncService, with taskToCommitChans, waitForProcessCompletionChannelsPerShardMap and currentShards
-- of its processors
pub record AsyncService : Type 0 where
  pub immediate_task_queue_map : GoMap ℕ ℕ
  pub timer_task_queue_map : GoMap ℕ ℕ
  pub wait_for_process_completion_channel_map : GoMap ℕ ℕ
  pub task_notifier : TaskNotifier
  pub task_to_commit_chans : GoMap ℕ ℕ
  pub wait_for_process_completion_channels_per_shard_map : GoMap ℕ ℕ
  pub current_shards : GoMap ℕ Bool

abbrev pub new_async_service : AsyncService
new_async_service = record {
  immediate_task_queue_map = [];
  timer_task_queue_map = [];
  wait_for_process_completion_channel_map = [];
  task_notifier = record {
    shard_id_to_immediate_task_queue = [];
    shard_id_to_timer_task_queue = [];
  };
  task_to_commit_chans = [];
  wait_for_process_completion_channels_per_shard_map = [];
  current_shards = [];
}

-- AddImmediateTaskQueue and AddTimerTaskQueue of the notifier, on its maps
abbrev pub add_unless_registered : Option ℕ → GoMap ℕ ℕ → ℕ → ℕ → Result (GoMap ℕ ℕ)
add_unless_registered none m shard q = ok (set m shard q)
add_unless_registered (some _) m shard q = err panic

-- AddImmediateTaskQueue and AddWaitForProcessCompletionChannels of the processor, on its maps
abbrev pub keep_or_add : Option ℕ → GoMap ℕ ℕ → ℕ → ℕ → GoMap ℕ ℕ
keep_or_add none m shard q = set m shard q
keep_or_add (some _) m shard q = m

abbrev pub add_to_processor : GoMap ℕ ℕ → ℕ → ℕ → GoMap ℕ ℕ
add_to_processor m shard q = keep_or_add (get m shard) m shard q

-- createQueuesAndStart
unfoldable pub create_queues_and_start : ℕ → ℕ → AsyncService → Result AsyncService
unfolding get set
create_queues_and_start made shard a = do
  let n = a.task_notifier
  immediate ←
      add_unless_registered (get n.shard_id_to_immediate_task_queue shard)
        n.shard_id_to_immediate_task_queue shard made
  timers ←
      add_unless_registered (get n.shard_id_to_timer_task_queue shard)
        n.shard_id_to_timer_task_queue shard made
  ok (record a {
    immediate_task_queue_map = set a.immediate_task_queue_map shard made;
    timer_task_queue_map = set a.timer_task_queue_map shard made;
    task_notifier = record {
      shard_id_to_immediate_task_queue = immediate;
      shard_id_to_timer_task_queue = timers;
    };
    task_to_commit_chans = add_to_processor a.task_to_commit_chans shard made;
    current_shards = set a.current_shards shard true;
  })

-- createWaitingChannelsAndStart
unfoldable pub create_waiting_channels_and_start : ℕ → ℕ → AsyncService → AsyncService
unfolding get set
create_waiting_channels_and_start made shard a = record a {
  wait_for_process_completion_channel_map =
      set a.wait_for_process_completion_channel_map shard made;
  wait_for_process_completion_channels_per_shard_map =
      add_to_processor a.wait_for_process_completion_channels_per_shard_map shard made;
}

-- stopQueuesAndRemove; a queue that is not found is logged.
abbrev pub stop_immediate : Option ℕ → ℕ → AsyncService → AsyncService
stop_immediate none shard a = a
stop_immediate (some _) shard a = record a {
  task_to_commit_chans = delete a.task_to_commit_chans shard;
  task_notifier = record a.task_notifier {
    shard_id_to_immediate_task_queue =
        delete a.task_notifier.shard_id_to_immediate_task_queue shard;
  };
  immediate_task_queue_map = delete a.immediate_task_queue_map shard;
}

abbrev pub stop_timers : Option ℕ → ℕ → AsyncService → AsyncService
stop_timers none shard a = a
stop_timers (some _) shard a = record a {
  current_shards = delete a.current_shards shard;
  task_notifier = record a.task_notifier {
    shard_id_to_timer_task_queue = delete a.task_notifier.shard_id_to_timer_task_queue shard;
  };
  timer_task_queue_map = delete a.timer_task_queue_map shard;
}

unfoldable pub stop_queues_and_remove : ℕ → AsyncService → AsyncService
unfolding get delete
stop_queues_and_remove shard a =
    let b = stop_immediate (get a.immediate_task_queue_map shard) shard a in
    stop_timers (get b.timer_task_queue_map shard) shard b

-- stopWaitingChannelsAndRemove
abbrev pub stop_channels : Option ℕ → ℕ → AsyncService → AsyncService
stop_channels none shard a = a
stop_channels (some _) shard a = record a {
  wait_for_process_completion_channels_per_shard_map =
      delete a.wait_for_process_completion_channels_per_shard_map shard;
  wait_for_process_completion_channel_map = delete a.wait_for_process_completion_channel_map shard;
}

unfoldable pub stop_waiting_channels_and_remove : ℕ → AsyncService → AsyncService
unfolding get delete
stop_waiting_channels_and_remove shard a =
    stop_channels (get a.wait_for_process_completion_channel_map shard) shard a

-- The loops of ReBalance
unfoldable pub assigned_shard_map : List ℕ → GoMap ℕ Bool → GoMap ℕ Bool
unfolding set
assigned_shard_map [] m = m
assigned_shard_map (s ∷ ss) m = assigned_shard_map ss (set m s true)

-- A shard that is not assigned any more is to be removed, another one is not to be created.
abbrev pub to_remove_if : Option Bool → ℕ → GoMap ℕ Bool × List ℕ → GoMap ℕ Bool × List ℕ
to_remove_if none shard (assigned, to_remove) = (assigned, shard ∷ to_remove)
to_remove_if (some _) shard rest = rest

abbrev pub delete_if : Option Bool → GoMap ℕ Bool → ℕ → GoMap ℕ Bool
delete_if none assigned shard = assigned
delete_if (some _) assigned shard = delete assigned shard

unfoldable pub current_shards_to_remove : GoMap ℕ ℕ → GoMap ℕ Bool → GoMap ℕ Bool × List ℕ
unfolding get delete
current_shards_to_remove [] assigned = (assigned, [])
current_shards_to_remove ((shard, _) ∷ m) assigned =
    to_remove_if (get assigned shard) shard
      (current_shards_to_remove m (delete_if (get assigned shard) assigned shard))

unfoldable pub stop_all : List ℕ → AsyncService → AsyncService
unfolding stop_queues_and_remove stop_waiting_channels_and_remove
stop_all [] a = a
stop_all (shard ∷ shards) a =
    stop_all shards (stop_waiting_channels_and_remove shard (stop_queues_and_remove shard a))

unfoldable pub create_all : ℕ → GoMap ℕ Bool → AsyncService → Result AsyncService
unfolding create_queues_and_start create_waiting_channels_and_start
create_all made [] a = ok a
create_all made ((shard, _) ∷ m) a = do
  b ← create_queues_and_start made shard a
  create_all made m (create_waiting_channels_and_start made shard b)

-- ReBalance, the one with the number `made`
unfoldable pub re_balance : ℕ → List ℕ → AsyncService → Result AsyncService
unfolding assigned_shard_map current_shards_to_remove stop_all create_all
re_balance made assigned_shard_ids a =
    let sorted =
      current_shards_to_remove a.immediate_task_queue_map
        (assigned_shard_map assigned_shard_ids []) in
    create_all made sorted.0 (stop_all sorted.1 a)
