-- ===== src/Ping.antt =====
-- chapter3/ping.go: Pinger. What the `select` of each turn takes is a list of events. The timer's channel
-- holds one value: an event says whether the timer had expired by then, which a stopped timer's code must
-- drain. A `reset` channel that is nil or empty is never taken.
pub mod Turns
pub mod Example
use networking_in_go.Prelude.{
  Bytes, codes, ℤ, pos, negsuc, if◌then◌else◌, none, some, [], ◌∷◌, true, false, refl, inl, inr,
  Option, List, ◌≡◌, Bool, ℕ, ◌++◌, ◌+◌, ◌-◌, ◌≤◌, ◌<◌, zero, suc, ap, sym, ◌∙◌,
}

-- 30 seconds, in nanoseconds, as in time.Duration.
abbrev pub default_ping_interval : ℕ
default_ping_interval = 30_000_000_000

pub data Event : Type 0 where
  cancelled : Bool → Event
  reset_to : ℤ → Bool → Event
  -- The timer's value is received, and the write succeeds or not.
  fired : Bool → Event

pub data Outcome : Type 0 where
  running returned : Outcome
  -- It waits for a timer's value that never comes.
  blocked : Outcome

-- The interval, the durations that the timer was started with, and the pings written.
pub record Pinger : Type 0 where
  pub interval : ℕ
  pub started : List ℕ
  pub pings : ℕ

unfoldable pub positive_or : ℕ → ℤ → ℕ
positive_or d (pos ℕ.zero) = d
positive_or d (pos (ℕ.suc n)) = ℕ.suc n
positive_or d (negsuc n) = d

-- `timer.Reset(interval)`.
restart : Pinger → Pinger
restart p = record p { started = p.started ++ p.interval ∷ [] }

-- The deferred `if !timer.Stop() { <-timer.C }`: whether the timer still runs, and else whether its value
-- is still in the channel.
pub data Timer : Type 0 where
  active expired drained : Timer

pub stop_timer : Timer → Outcome
stop_timer active = returned
stop_timer expired = returned
stop_timer drained = blocked

timer_of : Bool → Timer
timer_of true = expired
timer_of false = active

pub run : Pinger → List Event → Pinger × Outcome
unfolding restart positive_or stop_timer timer_of
run p [] = (p, running)
run p (cancelled full ∷ rest) = (p, stop_timer (timer_of full))
run p (reset_to d full ∷ rest) = elim (stop_timer (timer_of full)) [
  | running ↦ (p, running)
  | returned ↦ run (restart (record p { interval = positive_or p.interval d })) rest
  | blocked ↦ (p, blocked)
]
run p (fired true ∷ rest) = run (restart (record p { pings = p.pings + 1 })) rest
run p (fired false ∷ rest) = (p, stop_timer drained)

-- The first `select`: cancelled, a duration, or nothing yet.
pub data First : Type 0 where
  done nothing : First
  duration : ℤ → First

start : ℕ → List Event → Pinger × Outcome
unfolding run restart
start d events = run (record { interval = d; started = d ∷ []; pings = 0 }) events

unfoldable pub pinger : First → List Event → Pinger × Outcome
unfolding start
pinger done events = (record { interval = 0; started = []; pings = 0 }, returned)
pinger nothing events = start default_ping_interval events
pinger (duration d) events = start (positive_or default_ping_interval d) events
