-- ===== src/Process/Pages.antt =====
-- The reads of persistence/process: get_immediate_tasks.go, get_timer_tasks_up_to_timestamp.go,
-- get_timer_tasks_for_timestamps.go, with createGetTimerTaskResponse of
-- common.go, and the results that prepare_state.go gives to a worker. A task is
-- its row.
pub mod Ranges
use xdb.Prelude.{
  ℕ, suc, ◌-◌, ◌^◌, Bool, true, false, List, [], ◌∷◌, ◌++◌, Option, none, some, if◌then◌else◌, ltb,
  ◌==◌, length, GoMap, GoString, nat_key, string_key,
}
use xdb.Prelude.Maps.{get}
use xdb.DataModels.LocalQueues.{LocalQueueCommand}
use xdb.DataModels.Infos.{TimerCommand, CommandRequest, CommandResults, LocalQueueMessageResult}
use xdb.Database.Rows.{Db, ImmediateTaskRow, TimerTaskRow}
use xdb.Database.Tasks.{
  batch_select_immediate_tasks, batch_select_timer_tasks, select_timer_tasks_for_timestamps,
}

-- GetTimerTasksResponse
pub record GetTimerTasksResponse : Type 0 where
  pub tasks : List TimerTaskRow
  pub min_fire_timestamp_seconds_inclusive : ℕ
  pub max_fire_timestamp_seconds_inclusive : ℕ
  pub min_sequence_inclusive : ℕ
  pub max_sequence_inclusive : ℕ
  pub full_page : Bool

-- The loop for the smallest sequence, from math.MaxInt64
unfoldable pub min_sequence : ℕ → List TimerTaskRow → ℕ
min_sequence m [] = m
min_sequence m (t ∷ ts) =
    if ltb t.task_sequence m then min_sequence t.task_sequence ts else min_sequence m ts

-- The loop for the largest sequence; `none` is math.MinInt64
abbrev pub larger : Option ℕ → ℕ → ℕ
larger none n = n
larger (some m) n = if ltb m n then n else m

unfoldable pub max_sequence : Option ℕ → List TimerTaskRow → Option ℕ
max_sequence m [] = m
max_sequence m (t ∷ ts) = max_sequence (some (larger m t.task_sequence)) ts

abbrev pub or_zero : Option ℕ → ℕ
or_zero none = 0
or_zero (some n) = n

abbrev pub last_fire : TimerTaskRow → List TimerTaskRow → ℕ
last_fire t [] = t.fire_time_unix_seconds
last_fire t (u ∷ us) = last_fire u us

abbrev pub is_full : Option ℕ → ℕ → Bool
is_full none n = false
is_full (some size) n = n == size

-- createGetTimerTaskResponse
unfoldable pub create_get_timer_task_response : List TimerTaskRow → Option ℕ → GetTimerTasksResponse
unfolding min_sequence max_sequence
create_get_timer_task_response [] size = record {
  tasks = [];
  min_fire_timestamp_seconds_inclusive = 0;
  max_fire_timestamp_seconds_inclusive = 0;
  min_sequence_inclusive = 0;
  max_sequence_inclusive = 0;
  full_page = is_full size 0;
}
create_get_timer_task_response (t ∷ ts) size = record {
  tasks = t ∷ ts;
  min_fire_timestamp_seconds_inclusive = t.fire_time_unix_seconds;
  max_fire_timestamp_seconds_inclusive = last_fire t ts;
  min_sequence_inclusive = min_sequence (2 ^ 63 - 1) (t ∷ ts);
  max_sequence_inclusive = or_zero (max_sequence none (t ∷ ts));
  full_page = is_full size (length (t ∷ ts));
}

-- GetTimerTasksUpToTimestamp
unfoldable pub get_timer_tasks_up_to_timestamp : Db → ℕ → ℕ → ℕ → GetTimerTasksResponse
unfolding batch_select_timer_tasks create_get_timer_task_response
get_timer_tasks_up_to_timestamp db shard max_fire page_size =
    create_get_timer_task_response (batch_select_timer_tasks db shard max_fire page_size)
      (some page_size)

unfoldable pub all_timestamps : List (List ℕ) → List ℕ
all_timestamps [] = []
all_timestamps (r ∷ rs) = r ++ all_timestamps rs

-- GetTimerTasksForTimestamps; each detailed request is its fire timestamps
unfoldable pub get_timer_tasks_for_timestamps : Db → ℕ → List (List ℕ) → ℕ → GetTimerTasksResponse
unfolding select_timer_tasks_for_timestamps create_get_timer_task_response all_timestamps
get_timer_tasks_for_timestamps db shard requests min_seq =
    create_get_timer_task_response
      (select_timer_tasks_for_timestamps db shard (all_timestamps requests) min_seq) none

-- GetImmediateTasksResponse
pub record GetImmediateTasksResponse : Type 0 where
  pub tasks : List ImmediateTaskRow
  pub min_sequence_inclusive : ℕ
  pub max_sequence_inclusive : ℕ

abbrev pub last_sequence : ImmediateTaskRow → List ImmediateTaskRow → ℕ
last_sequence t [] = t.task_sequence
last_sequence t (u ∷ us) = last_sequence u us

abbrev pub immediate_response : List ImmediateTaskRow → GetImmediateTasksResponse
immediate_response [] = record {
  tasks = [];
  min_sequence_inclusive = 0;
  max_sequence_inclusive = 0;
}
immediate_response (t ∷ ts) = record {
  tasks = t ∷ ts;
  min_sequence_inclusive = t.task_sequence;
  max_sequence_inclusive = last_sequence t ts;
}

-- GetImmediateTasks
unfoldable pub get_immediate_tasks : Db → ℕ → ℕ → ℕ → GetImmediateTasksResponse
unfolding batch_select_immediate_tasks
get_immediate_tasks db shard start page_size =
    immediate_response (batch_select_immediate_tasks db shard start page_size)

-- xcapi.CommandStatus, TimerResult and LocalQueueResult
pub data CommandStatus : Type 0 where
  waiting_command completed_command skipped_command : CommandStatus

pub record LocalQueueResult : Type 0 where
  pub status : CommandStatus
  pub queue_name : GoString
  pub messages : List LocalQueueMessageResult

abbrev pub timer_status : Option Bool → CommandStatus
timer_status none = waiting_command
timer_status (some fired) = if fired then completed_command else skipped_command

unfoldable pub timer_results_from : CommandResults → ℕ → List TimerCommand → List CommandStatus
timer_results_from r i [] = []
timer_results_from r i (_ ∷ cs) =
    timer_status (get r.timer_results i) ∷ timer_results_from r (suc i) cs

abbrev pub queue_result :
    LocalQueueCommand → Option (List LocalQueueMessageResult) → LocalQueueResult
queue_result c none = record { status = waiting_command; queue_name = c.queue_name; messages = [] }
queue_result c (some ms) = record {
  status = completed_command;
  queue_name = c.queue_name;
  messages = ms;
}

unfoldable pub queue_results_from :
    CommandResults → ℕ → List LocalQueueCommand → List LocalQueueResult
queue_results_from r i [] = []
queue_results_from r i (c ∷ cs) =
    queue_result c (get r.local_queue_results i) ∷ queue_results_from r (suc i) cs

-- prepareWaitUntilCommandResults: the timer results and the local queue results
unfoldable pub prepare_wait_until_command_results :
    CommandResults → CommandRequest → List CommandStatus × List LocalQueueResult
unfolding timer_results_from queue_results_from
prepare_wait_until_command_results r c =
    (timer_results_from r 0 c.timer_commands, queue_results_from r 0 c.local_queue_commands)
