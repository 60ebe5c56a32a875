-- ===== src/Engine/TimerGate.antt =====
-- engine/timer_gate.go: LocalTimerGateImpl. Times are nanoseconds. The time.Timer is the time for
-- which it is armed, and whether a value of it waits in its channel; what the goroutine of the gate
-- and the clock do are steps of their own, since they interleave with the calls. Close is left out.
pub mod Alarm
use xdb.Prelude.{
  ℕ, Bool, true, false, not, ◌&&◌, ◌||◌, List, [], ◌∷◌, Option, none, some, if◌then◌else◌, ltb, leb,
}

pub record TimerGate : Type 0 where
  pub is_active : Bool
  pub armed : Option ℕ
  pub expired : Bool
  pub next_wakeup_time : ℕ
  pub signalled : Bool

-- NewLocalTimerGate
abbrev pub new_local_timer_gate : TimerGate
new_local_timer_gate = record {
  is_active = false;
  armed = none;
  expired = false;
  next_wakeup_time = 0;
  signalled = false;
}

-- Stop
abbrev pub stop : TimerGate → TimerGate
stop g = record g { is_active = false; armed = none }

-- FireAfter
abbrev pub fire_after : TimerGate → ℕ → Bool
fire_after g check_time = ltb check_time g.next_wakeup_time

-- InactiveOrFireAfter
abbrev pub inactive_or_fire_after : TimerGate → ℕ → Bool
inactive_or_fire_after g check_time = not g.is_active || fire_after g check_time

-- What time.Timer.Stop answers.
abbrev pub is_armed : Option ℕ → Bool
is_armed none = false
is_armed (some _) = true

abbrev pub keeps_earlier : TimerGate → ℕ → Bool
keeps_earlier g next_time = is_armed g.armed && ltb g.next_wakeup_time next_time

-- Update
abbrev pub update : TimerGate → ℕ → TimerGate × Bool
update g next_time =
    if keeps_earlier g next_time
    then (record g { is_active = true; armed = some g.next_wakeup_time }, false)
    else (record g { is_active = true; armed = some next_time; next_wakeup_time = next_time }, true)

-- The timer fires into its channel.
abbrev pub expire : TimerGate → TimerGate
expire g = if is_armed g.armed then record g { armed = none; expired = true } else g

-- The goroutine takes the value and signals, if the signal before is taken.
abbrev pub relay : TimerGate → TimerGate
relay g = if g.expired then record g { expired = false; is_active = false; signalled = true } else g

-- The caller takes the signal from FireChan.
abbrev pub receive : TimerGate → TimerGate
receive g = record g { signalled = false }
