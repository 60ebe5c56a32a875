-- ===== src/Service/Waiting.antt =====
-- WaitForProcessCompletion of service/async/service_impl.go and of service/api/service_impl.go, and the
-- polls that a notification asks for. What ends a wait is an argument.
use xdb.Prelude.{
  ℕ, Bool, true, false, Option, none, some, Result, ok, err, if◌then◌else◌, ite, GoString, codes,
  nat_key, string_discrete,
}
use xdb.Prelude.Maps.{get}
use xdb.DataModels.Enums.{ProcessExecutionStatus}
use xdb.DataModels.Infos.{Uuid}
use xdb.Database.Rows.{Db}
use xdb.Process.Reads.{LatestProcess, not_exists, latest_process, get_latest_process_execution}
use xdb.Engine.Backoff.{greater32}
use xdb.Engine.CompletionChannels.{WaitForProcessCompletionChannels, Effect, add, terminate_waiting}
use xdb.Engine.ExecuteTasks.{has_ended}
use xdb.Service.Shards.{AsyncService}
use xdb.Service.Api.{Answer, answer, error_with_status}

-- WaitForProcessCompletionResponse, by the field that is set
pub data WaitResponse : Type 0 where
  timeout stop_by_system : WaitResponse
  status : GoString → WaitResponse

-- What the select in the async service meets: the context is done, with the shard owned or not by
-- then, or the channel has a result, or it is closed.
pub data WokenBy : Type 0 where
  context_done : Bool → WokenBy
  receives : GoString → WokenBy
  channel_closed : WokenBy

-- WaitForProcessCompletionResultStop
abbrev pub result_stop : GoString
result_stop = codes "STOP"

unfoldable pub received : GoString → WaitResponse
unfolding string_discrete
received result = ite (string_discrete result result_stop) stop_by_system (status result)

-- The channels after the wait, and the response; `none` is the error of a shard that is not owned. A
-- closed channel gives the empty string.
abbrev pub woken :
    WokenBy
    → ℕ
    → Uuid
    → ℕ
    → WaitForProcessCompletionChannels
    → Option WaitResponse × WaitForProcessCompletionChannels
woken (context_done true) maximum id now w =
    let effect : Effect GoString × WaitForProcessCompletionChannels =
      terminate_waiting maximum id now w in
    (some timeout, effect.1)
woken (context_done false) maximum id now w = (none, w)
woken (receives result) maximum id now w = (some (received result), w)
woken channel_closed maximum id now w = (some (received (codes "")), w)

-- WaitForProcessCompletion of the async service, on the channels of the shard if it is owned. The
-- request is added at `now` and woken at `later`.
unfoldable pub wait_for_process_completion :
    Option WaitForProcessCompletionChannels
    → ℕ
    → Uuid
    → ℕ
    → ℕ
    → WokenBy
    → Option WaitResponse × Option WaitForProcessCompletionChannels
unfolding add terminate_waiting received
wait_for_process_completion none maximum id now later by = (none, none)
wait_for_process_completion (some w) maximum id now later by =
    let o = woken by maximum id later (add id now w).1 in (o.0, some o.1)

-- NotifyPollingImmediateTask and NotifyPollingTimerTask: the queue that is triggered
unfoldable pub notify_polling_immediate_task : AsyncService → ℕ → Option ℕ
unfolding get
notify_polling_immediate_task a shard = get a.immediate_task_queue_map shard

unfoldable pub notify_polling_timer_task : AsyncService → ℕ → Option ℕ
unfolding get
notify_polling_timer_task a shard = get a.timer_task_queue_map shard

-- WaitForProcessCompletion of the API
abbrev pub default_wait_for_timeout_max : ℕ
default_wait_for_timeout_max = 30

abbrev pub timeout_or_default : Option ℕ → ℕ
timeout_or_default none = default_wait_for_timeout_max
timeout_or_default (some seconds) = seconds

abbrev pub wait_timeout : Option ℕ → ℕ
wait_timeout requested =
    let seconds = timeout_or_default requested in
    if greater32 seconds default_wait_for_timeout_max then default_wait_for_timeout_max else seconds

-- What is asked of the async service has no answer where the request to it fails.
abbrev pub remote_answered : Option WaitResponse → Answer WaitResponse
remote_answered none = error_with_status 500
remote_answered (some response) = answer response

abbrev pub wait_latest :
    (ProcessExecutionStatus → GoString)
    → (ℕ → Uuid → Option WaitResponse)
    → Bool
    → Result LatestProcess
    → Answer WaitResponse
wait_latest text remote deadline_exceeded (err _) =
    if deadline_exceeded then answer timeout else error_with_status 500
wait_latest text remote deadline_exceeded (ok not_exists) = error_with_status 404
wait_latest text remote deadline_exceeded (ok (latest_process id row)) =
    if has_ended row.status
    then answer (status (text row.status))
    else remote_answered (remote row.shard_id id)

unfoldable pub api_wait_for_process_completion :
    (ProcessExecutionStatus → GoString)
    → (ℕ → Uuid → Option WaitResponse)
    → Bool
    → GoString × GoString
    → Db
    → Answer WaitResponse
unfolding get_latest_process_execution
api_wait_for_process_completion text remote deadline_exceeded key db =
    wait_latest text remote deadline_exceeded (get_latest_process_execution key db)
