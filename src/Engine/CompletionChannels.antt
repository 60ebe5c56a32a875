-- ===== src/Engine/CompletionChannels.antt =====
-- engine/wait_for_process_completion_channel.go: the requests that wait for a process execution to
-- end. A channel is a number. Who is receiving on a channel, and the sleep of three seconds before
-- the clean-up, are outside; the lock is one step. A clean-up while the lock is held would not end.
pub mod Ending
use xdb.Prelude.{
  ℕ, ◌+◌, Bool, true, false, List, [], ◌∷◌, ◌++◌, Option, none, some, nat_key, if◌then◌else◌, ltb,
  length,
}
use xdb.Prelude.Maps.{GoMap, get, set, delete, is_empty, or_empty}
use xdb.DataModels.Infos.{Uuid}

-- WaitForProcessCompletionChannelsPerShardImpl
pub record WaitForProcessCompletionChannels : Type 0 where
  pub channel_map : GoMap Uuid ℕ
  pub waiting_request_created_at : GoMap Uuid (List ℕ)
  pub next_channel : ℕ

abbrev pub new_channels : WaitForProcessCompletionChannels
new_channels = record { channel_map = []; waiting_request_created_at = []; next_channel = 0 }

-- What a step does to a channel: a number of receivers get the result, or it is closed.
pub data Effect (R : Type 0) : Type 0 where
  nothing : Effect R
  sent : ℕ → R → ℕ → Effect R
  closed : ℕ → Effect R
  deadlock : Effect R

abbrev add_to :
    Option ℕ → Uuid → WaitForProcessCompletionChannels → ℕ × WaitForProcessCompletionChannels
add_to (some c) id w = (c, w)
add_to none id w = (
  w.next_channel,
  record w { channel_map = set w.channel_map id w.next_channel; next_channel = w.next_channel + 1 },
)

-- Add, at the time `now`: the channel on which the request waits
unfoldable pub add :
    Uuid → ℕ → WaitForProcessCompletionChannels → ℕ × WaitForProcessCompletionChannels
unfolding get set
add id now w =
    let (c, w') = add_to (get w.channel_map id) id w in
    (
      c,
      record w' {
        waiting_request_created_at =
            set w'.waiting_request_created_at id
              (or_empty (get w'.waiting_request_created_at id) ++ now ∷ []);
      },
    )

-- The sends do not block: each of them finds a receiver or is dropped.
abbrev delivered : ℕ → ℕ → ℕ
delivered count receiving = if ltb receiving count then receiving else count

-- Signal, while `receiving` goroutines receive on the channel
abbrev pub signal_on :
    {R : Type 0}
    → Option ℕ
    → Uuid
    → R
    → ℕ
    → WaitForProcessCompletionChannels
    → Effect R × WaitForProcessCompletionChannels
signal_on none id result receiving w = (nothing, w)
signal_on (some c) id result receiving w =
    let count = length (or_empty (get w.waiting_request_created_at id)) in
    (
      sent c result (delivered count receiving),
      record w { waiting_request_created_at = set w.waiting_request_created_at id [] },
    )

unfoldable pub signal :
    {R : Type 0}
    → Uuid
    → R
    → ℕ
    → WaitForProcessCompletionChannels
    → Effect R × WaitForProcessCompletionChannels
unfolding get set
signal id result receiving w = signal_on (get w.channel_map id) id result receiving w

-- cleanup
abbrev pub cleanup_of :
    {R : Type 0}
    → Option ℕ
    → Uuid
    → WaitForProcessCompletionChannels
    → Effect R × WaitForProcessCompletionChannels
cleanup_of none id w = (nothing, w)
cleanup_of (some c) id w = (closed c, record w { channel_map = delete w.channel_map id })

unfoldable pub cleanup :
    {R : Type 0}
    → Uuid
    → WaitForProcessCompletionChannels
    → Effect R × WaitForProcessCompletionChannels
unfolding get delete
cleanup id w =
    cleanup_of (get w.channel_map id) id
      (record w { waiting_request_created_at = delete w.waiting_request_created_at id })

-- TerminateWaiting, at the time `now`, with DEFAULT_WAIT_FOR_TIMEOUT_MAX as `maximum`
abbrev pub still_valid : ℕ → ℕ → List ℕ → List ℕ
still_valid maximum now [] = []
still_valid maximum now (t ∷ ts) =
    if ltb (t + maximum) now then still_valid maximum now ts else t ∷ still_valid maximum now ts

unfoldable pub terminate_waiting :
    {R : Type 0}
    → ℕ
    → Uuid
    → ℕ
    → WaitForProcessCompletionChannels
    → Effect R × WaitForProcessCompletionChannels
unfolding get set
terminate_waiting maximum id now w =
    let waiting =
      set w.waiting_request_created_at id
        (still_valid maximum now (or_empty (get w.waiting_request_created_at id))) in
    if is_empty waiting
    then (deadlock, w)
    else (nothing, record w { waiting_request_created_at = waiting })

-- Stop, after it has left the processor: every process execution of the map is signalled.
unfoldable pub stop :
    {R : Type 0}
    → R
    → (Uuid → ℕ)
    → GoMap Uuid ℕ
    → WaitForProcessCompletionChannels
    → List (Effect R) × WaitForProcessCompletionChannels
unfolding signal
stop result receiving [] w = ([], w)
stop result receiving ((id, _) ∷ m) w =
    let (effect, w') = signal id result (receiving id) w in
    let (effects, w'') = stop result receiving m w' in (effect ∷ effects, w'')
