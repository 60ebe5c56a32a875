-- ===== src/Examples/Waiting.antt =====
-- Two requests wait for the process execution 5.
use xdb.Prelude.{
  [], ◌∷◌, Option, none, some, ◌≡◌, refl, nat_key, ℕ_discrete, string_discrete, GoString, codes,
}
use xdb.Prelude.Maps.{get}
use xdb.Engine.CompletionChannels.{
  WaitForProcessCompletionChannels, Effect, closed, sent, add, signal, cleanup, terminate_waiting,
}
use xdb.Service.Waiting.{
  WaitResponse, status, channel_closed, wait_for_process_completion, received,
}
use xdb.Engine.CompletionChannels.Ending.{signalled, cleanup-closes_added}

abbrev two_waiting : WaitForProcessCompletionChannels
two_waiting = record {
  channel_map = (5, 0) ∷ [];
  waiting_request_created_at = (5, 100 ∷ 101 ∷ []) ∷ [];
  next_channel = 1;
}

abbrev ended : GoString
ended = codes "COMPLETED"

two_sent : (signal 5 ended 2 two_waiting).0 ≡ sent 0 ended 2
unfolding signal get ℕ_discrete
two_sent = refl

closed_example :
    let added = add 5 103 (signalled 5 ended 2 two_waiting) in
    let cleaned : Effect GoString × WaitForProcessCompletionChannels = cleanup 5 added.1 in
    (added.0 ≡ 0)
    × (cleaned.0 ≡ closed 0)
    × (get cleaned.1.channel_map 5 ≡ none)
    × (get cleaned.1.waiting_request_created_at 5 ≡ none)
unfolding get ℕ_discrete
closed_example = cleanup-closes_added 5 ended 2 103 0 two_waiting refl

-- A request that times out leaves its channel.
abbrev timed_out : Effect GoString × WaitForProcessCompletionChannels
timed_out = (terminate_waiting 30 5 200 two_waiting)

channel_stays : timed_out.1.channel_map ≡ (5, 0) ∷ []
unfolding terminate_waiting get ℕ_discrete
channel_stays = refl

-- A request whose channel is closed answers with an empty status.
abbrev answered_empty : Option WaitResponse
answered_empty = (wait_for_process_completion (some two_waiting) 30 5 103 106 channel_closed).0

empty_status : answered_empty ≡ some (status [])
unfolding wait_for_process_completion received string_discrete
empty_status = refl
