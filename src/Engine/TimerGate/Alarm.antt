-- ===== src/Engine/TimerGate/Alarm.antt =====
-- What the gate of engine/timer_gate.go promises: it is an alarm for the earliest time that was asked
-- for since it last fired or was stopped, and what it is asked for is not lost.
use xdb.Prelude.{
  ℕ, arith, Bool, true, false, not, ◌||◌, List, [], ◌∷◌, Option, none, some, if◌then◌else◌, ltb,
  leb, ◌≡◌, refl, ap, ◌∙◌, All,
}
use xdb.Engine.TimerGate.{
  TimerGate, new_local_timer_gate, stop, update, expire, relay, receive, inactive_or_fire_after,
}

-- A call of the gate, or a step of its clock and its goroutine.
pub data Event : Type 0 where
  update_to : ℕ → Event
  stopped clock_expires relays receives : Event

abbrev pub step : TimerGate → Event → TimerGate
step g (update_to t) = (update g t).0
step g stopped = stop g
step g clock_expires = expire g
step g relays = relay g
step g receives = receive g

unfoldable pub run : TimerGate → List Event → TimerGate
run g [] = g
run g (e ∷ es) = run (step g e) es

-- The alarm: the earliest time that was asked for, if any.
abbrev pub earliest : Option ℕ → ℕ → Option ℕ
earliest none t = some t
earliest (some d) t = some (if ltb d t then d else t)

abbrev pub alarm_step : Option ℕ → Event → Option ℕ
alarm_step a (update_to t) = earliest a t
alarm_step a stopped = none
alarm_step a clock_expires = none
alarm_step a relays = a
alarm_step a receives = a

unfoldable pub alarm_run : Option ℕ → List Event → Option ℕ
alarm_run a [] = a
alarm_run a (e ∷ es) = alarm_run (alarm_step a e) es

-- A gate is armed for the time that it records, and one that is active is armed or has expired.
abbrev pub ArmedAs : Option ℕ → ℕ → Bool → Bool → Type 0
ArmedAs none wakeup active expired = (not active || expired) ≡ true
ArmedAs (some d) wakeup active expired = d ≡ wakeup

abbrev pub IsSound : TimerGate → Type 0
IsSound g = ArmedAs g.armed g.next_wakeup_time g.is_active g.expired

pub new-IsSound : IsSound new_local_timer_gate
new-IsSound = refl

pub update-IsSound : (g : TimerGate) (t : ℕ) → IsSound (update g t).0
update-IsSound g t = ground arith

-- What a relay leaves: an active gate whose timer is armed again stays armed.
relay-ArmedAs :
    (a : Option ℕ) (wakeup : ℕ) (active expired : Bool)
    → ArmedAs a wakeup active expired
    → ArmedAs a wakeup (if expired then false else active) false
relay-ArmedAs none wakeup active true h = refl
relay-ArmedAs none wakeup true false h = cc
relay-ArmedAs none wakeup false false h = refl
relay-ArmedAs (some d) wakeup active expired h = h

pub step-IsSound : (g : TimerGate) (e : Event) → IsSound g → IsSound (step g e)
step-IsSound g (update_to t) h = update-IsSound g t
step-IsSound g stopped h = refl
step-IsSound g clock_expires h = ground arith
step-IsSound g relays h =
    ground (arith, relay-ArmedAs g.armed g.next_wakeup_time g.is_active g.expired h)
step-IsSound g receives h = h

step-armed : (g : TimerGate) (e : Event) → IsSound g → (step g e).armed ≡ alarm_step g.armed e
step-armed g (update_to t) h = ground arith
step-armed g stopped h = refl
step-armed g clock_expires h = ground arith
step-armed g relays h = ground arith
step-armed g receives h = refl

-- The gate is armed as the alarm is, after any calls and any steps of the clock and the goroutine.
pub run_refines :
    (g : TimerGate) (es : List Event)
    → IsSound g
    → IsSound (run g es) × ((run g es).armed ≡ alarm_run g.armed es)
unfolding run alarm_run
run_refines g [] h = (h, refl)
run_refines g (e ∷ es) h =
    let (sound, same) = run_refines (step g e) es (step-IsSound g e h) in
    (sound, same ∙ ap (λ a. alarm_run a es) (step-armed g e h))

-- The gate has signalled, is about to, or is armed for no later than the time.
abbrev pub armed_by : Option ℕ → ℕ → Bool
armed_by none t = false
armed_by (some d) t = leb d t

abbrev pub wakes_by : TimerGate → ℕ → Bool
wakes_by g t = g.signalled || (g.expired || armed_by g.armed t)

pub update-wakes_by : (g : TimerGate) (t : ℕ) → wakes_by (update g t).0 t ≡ true
update-wakes_by g t = ground arith

pub update-wakes_by_other :
    (g : TimerGate) (t u : ℕ) → IsSound g → wakes_by g u ≡ true → wakes_by (update g t).0 u ≡ true
update-wakes_by_other g t u s h = ground arith

-- An active gate that would not fire after the time wakes by it.
pub active-wakes_by :
    (g : TimerGate) (t : ℕ) → IsSound g → inactive_or_fire_after g t ≡ false → wakes_by g t ≡ true
active-wakes_by g t s h = ground arith

-- Only a stop or a receipt of the signal ends it.
abbrev pub keeps_wakeup : Event → Bool
keeps_wakeup (update_to t) = true
keeps_wakeup clock_expires = true
keeps_wakeup relays = true
keeps_wakeup stopped = false
keeps_wakeup receives = false

pub step-wakes_by :
    (g : TimerGate) (e : Event) (t : ℕ)
    → IsSound g
    → keeps_wakeup e ≡ true
    → wakes_by g t ≡ true
    → wakes_by (step g e) t ≡ true
step-wakes_by g (update_to u) t s k h = update-wakes_by_other g u t s h
step-wakes_by g stopped t s k h = absurd (cc k)
step-wakes_by g clock_expires t s k h = ground arith
step-wakes_by g relays t s k h = ground arith
step-wakes_by g receives t s k h = absurd (cc k)

run-wakes_by :
    (g : TimerGate) (es : List Event) (t : ℕ)
    → IsSound g
    → All (λ e. keeps_wakeup e ≡ true) es
    → wakes_by g t ≡ true
    → wakes_by (run g es) t ≡ true
unfolding run
run-wakes_by g [] t s k h = h
run-wakes_by g (e ∷ es) t s k h =
    run-wakes_by (step g e) es t (step-IsSound g e s) k.1 (step-wakes_by g e t s k.0 h)

-- A wake-up that was asked for is not lost: until the gate is stopped or its signal is taken, it has
-- signalled or will by the time.
pub run-update :
    (g : TimerGate) (t : ℕ) (es : List Event)
    → IsSound g
    → All (λ e. keeps_wakeup e ≡ true) es
    → wakes_by (run (update g t).0 es) t ≡ true
run-update g t es s k =
    run-wakes_by (update g t).0 es t (update-IsSound g t) k (update-wakes_by g t)
