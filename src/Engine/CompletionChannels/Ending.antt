-- ===== src/Engine/CompletionChannels/Ending.antt =====
-- engine/wait_for_process_completion_channel.go: requests that come between a signal and its clean-up.
use xdb.Prelude.{ℕ, Option, none, some, nat_key, ◌≡◌, refl, ap, ◌∙◌}
use xdb.Prelude.Maps.{get, get-delete_self}
use xdb.DataModels.Infos.{Uuid}
use xdb.Engine.CompletionChannels.{
  WaitForProcessCompletionChannels, Effect, closed, add, signal, signal_on, cleanup,
}

-- A process execution that is signalled, a request for it that is added after that, and the clean-up
abbrev pub signalled :
    {R : Type 0}
    → Uuid
    → R
    → ℕ
    → WaitForProcessCompletionChannels
    → WaitForProcessCompletionChannels
signalled id result receiving w = (signal id result receiving w).1

signal_on-channels :
    {R : Type 0} (c : Option ℕ) (id : Uuid) (result : R) (receiving : ℕ)
    (w : WaitForProcessCompletionChannels)
    → (signal_on c id result receiving w).1.channel_map ≡ w.channel_map
signal_on-channels none id result receiving w = refl
signal_on-channels (some c) id result receiving w = refl

signalled-channels :
    {R : Type 0} (id : Uuid) (result : R) (receiving : ℕ) (w : WaitForProcessCompletionChannels)
    → (signalled id result receiving w).channel_map ≡ w.channel_map
unfolding signal
signalled-channels id result receiving w =
    signal_on-channels (get w.channel_map id) id result receiving w

-- A request that is added after its process execution was signalled, and before the clean-up of the
-- signal, waits on the channel of the signal, and the clean-up closes that channel, so no result
-- reaches the request; it leaves no channel and no waiting request of the process execution.
pub cleanup-closes_added :
    {R : Type 0} (id : Uuid) (result : R) (receiving now c : ℕ)
    (w : WaitForProcessCompletionChannels)
    → get w.channel_map id ≡ some c
    → let added = add id now (signalled id result receiving w) in
      let cleaned : Effect R × WaitForProcessCompletionChannels = cleanup id added.1 in
      (added.0 ≡ c)
      × (cleaned.0 ≡ closed c)
      × (get cleaned.1.channel_map id ≡ none)
      × (get cleaned.1.waiting_request_created_at id ≡ none)
unfolding add cleanup
cleanup-closes_added id result receiving now c w has =
    let still : get (signalled id result receiving w).channel_map id ≡ some c =
      ap (λ m. get m id) (signalled-channels id result receiving w) ∙ has in
    rw (still, still)
      (
        refl,
        refl,
        get-delete_self (signalled id result receiving w).channel_map id,
        get-delete_self _ id,
      )
