-- ===== src/Engine/TimerNotifications.antt =====
-- The requests to the queue of timer tasks, engine/timer_task_queue.go: filterNotifyRequest, and the
-- filtering that drainAllNotifyRequests does with it.
use xdb.Prelude.{
  ℕ, ◌-◌, ◌^◌, ◌&&◌, List, [], ◌∷◌, ◌++◌, Option, none, some, if◌then◌else◌, ltb, leb,
}

-- xcapi.NotifyTimerTasksRequest
pub record NotifyTimerTasksRequest : Type 0 where
  pub shard_id : ℕ
  pub process_execution_id : ℕ
  pub fire_timestamps : List ℕ

-- math.MaxInt64
abbrev pub max_int64 : ℕ
max_int64 = 2 ^ 63 - 1

-- The loop of filterNotifyRequest over the fire timestamps, with the smallest one so far
unfoldable pub filter_timestamps : ℕ → List ℕ → ℕ → List ℕ × ℕ
filter_timestamps window [] smallest = ([], smallest)
filter_timestamps window (ts ∷ more) smallest =
    let rest =
      filter_timestamps window more (if leb ts window && ltb ts smallest then ts else smallest) in
    if leb ts window then (ts ∷ rest.0, rest.1) else rest

-- A request that keeps no timestamp is nil.
abbrev pub request_of : NotifyTimerTasksRequest → List ℕ → Option NotifyTimerTasksRequest
request_of req [] = none
request_of req (ts ∷ more) = some (record req { fire_timestamps = ts ∷ more })

-- filterNotifyRequest
unfoldable pub filter_notify_request :
    ℕ → NotifyTimerTasksRequest → ℕ → Option NotifyTimerTasksRequest × ℕ
unfolding filter_timestamps
filter_notify_request window req smallest =
    let kept = filter_timestamps window req.fire_timestamps smallest in
    (request_of req kept.0, kept.1)

abbrev pub append_if {ℓ} : {A : Type ℓ} → List A → Option A → List A
append_if xs none = xs
append_if xs (some x) = xs ++ x ∷ []

-- The requests, first the given one, are filtered and appended.
unfoldable pub filter_all :
    ℕ
    → List NotifyTimerTasksRequest
    → List NotifyTimerTasksRequest
    → ℕ
    → List NotifyTimerTasksRequest × ℕ
unfolding filter_notify_request
filter_all window [] current smallest = (current, smallest)
filter_all window (req ∷ more) current smallest =
    let kept = filter_notify_request window req smallest in
    filter_all window more (append_if current kept.0) kept.1

abbrev pub first_and :
    Option NotifyTimerTasksRequest → List NotifyTimerTasksRequest → List NotifyTimerTasksRequest
first_and none reqs = reqs
first_and (some req) reqs = req ∷ reqs
