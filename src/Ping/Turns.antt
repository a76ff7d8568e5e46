-- ===== src/Ping/Turns.antt =====
-- chapter3/ping.go: how often Pinger pings, and how it ends.
use networking_in_go.Ping.{
  default_ping_interval, Event, cancelled, reset_to, fired, Outcome, returned, blocked, Pinger,
  positive_or, restart, stop_timer, timer_of, run, First, done, nothing, duration, start, pinger,
}
use mathlib.Core.List.{append-nil}
use networking_in_go.Prelude.{
  append_assoc, ℤ, pos, negsuc, arith, All, [], ◌∷◌, true, false, refl, List, ◌≡◌, Bool, ℕ, ◌++◌,
  ◌+◌, ◌≤◌, ap, sym, ◌∙◌, ◌≢◌,
}

-- The intervals that the timer is to be started with: the last positive duration that was asked for, again
-- after each ping and each request, until the end.
pub intervals : ℕ → List Event → List ℕ
intervals d [] = []
intervals d (cancelled full ∷ rest) = []
intervals d (reset_to e full ∷ rest) = positive_or d e ∷ intervals (positive_or d e) rest
intervals d (fired true ∷ rest) = d ∷ intervals d rest
intervals d (fired false ∷ rest) = []

pub first_interval : First → ℕ
first_interval done = 0
first_interval nothing = default_ping_interval
first_interval (duration d) = positive_or default_ping_interval d

run_started :
    (events : List Event) (p : Pinger)
    → (run p events).0.started ≡ p.started ++ intervals p.interval events
unfolding run intervals restart stop_timer timer_of
run_started [] p = sym (append-nil p.started)
run_started (cancelled full ∷ rest) p = sym (append-nil p.started)
run_started (reset_to e true ∷ rest) p =
    run_started rest (restart (record p { interval = positive_or p.interval e }))
    ∙ append_assoc p.started (positive_or p.interval e ∷ [])
        (intervals (positive_or p.interval e) rest)
run_started (reset_to e false ∷ rest) p =
    run_started rest (restart (record p { interval = positive_or p.interval e }))
    ∙ append_assoc p.started (positive_or p.interval e ∷ [])
        (intervals (positive_or p.interval e) rest)
run_started (fired true ∷ rest) p =
    run_started rest (restart (record p { pings = p.pings + 1 }))
    ∙ append_assoc p.started (p.interval ∷ []) (intervals p.interval rest)
run_started (fired false ∷ rest) p = sym (append-nil p.started)

positive_or_positive : (d : ℕ) (e : ℤ) → 1 ≤ d → 1 ≤ positive_or d e
unfolding positive_or
positive_or_positive d (pos ℕ.zero) h = h
positive_or_positive d (pos (ℕ.suc n)) h = omega arith
positive_or_positive d (negsuc n) h = h

intervals_positive : (events : List Event) (d : ℕ) → 1 ≤ d → All (λ n. 1 ≤ n) (intervals d events)
unfolding intervals
intervals_positive [] d h = tt
intervals_positive (cancelled full ∷ rest) d h = tt
intervals_positive (reset_to e full ∷ rest) d h =
    let h' = positive_or_positive d e h in (h', intervals_positive rest _ h')
intervals_positive (fired true ∷ rest) d h = (h, intervals_positive rest d h)
intervals_positive (fired false ∷ rest) d h = tt

start-intervals :
    (d : ℕ) (events : List Event)
    → 1 ≤ d
    → ((start d events).0.started ≡ d ∷ intervals d events)
      × All (λ n. 1 ≤ n) (start d events).0.started
unfolding start
start-intervals d events h =
    let e = run_started events (record { interval = d; started = d ∷ []; pings = 0 }) in
    (e, rw e (h, intervals_positive events d h))

-- Whatever is asked for and when, the timer is started with 30 seconds or the first positive
-- duration, and then, after each ping and each request, with the last positive duration: never with
-- one that is 0 or less. The context was not cancelled before the first turn.
pub pinger-intervals :
    (first : First) (events : List Event)
    → first ≢ done
    → ((pinger first events).0.started
        ≡ first_interval first ∷ intervals (first_interval first) events)
      × All (λ n. 1 ≤ n) (pinger first events).0.started
unfolding pinger first_interval
pinger-intervals done events h = absurd (h refl)
pinger-intervals nothing events h = start-intervals default_ping_interval events (omega arith)
pinger-intervals (duration d) events h =
    start-intervals (positive_or default_ping_interval d) events
      (positive_or_positive default_ping_interval d (omega arith))

-- Pings, with no failed write.
abbrev pub IsTurn : Event → Type 0
IsTurn (cancelled full) = ⊥
IsTurn (reset_to d full) = Unit
IsTurn (fired written) = written ≡ true

run_turns :
    (events rest : List Event) (p : Pinger)
    → All IsTurn events
    → (q : Pinger) × (run p (events ++ rest) ≡ run q rest)
unfolding run stop_timer timer_of
run_turns [] rest p h = (p, refl)
run_turns (cancelled full ∷ events) rest p h = absurd h.0
run_turns (reset_to d true ∷ events) rest p h = run_turns events rest _ h.1
run_turns (reset_to d false ∷ events) rest p h = run_turns events rest _ h.1
run_turns (fired true ∷ events) rest p h = run_turns events rest _ h.1
run_turns (fired false ∷ events) rest p h = cc

start_ends :
    (d : ℕ) (events rest : List Event) (full : Bool)
    → All IsTurn events
    → ((start d (events ++ cancelled full ∷ rest)).1 ≡ returned)
      × ((start d (events ++ fired false ∷ rest)).1 ≡ blocked)
unfolding start run stop_timer timer_of
start_ends d events rest true a =
    let p : Pinger = record { interval = d; started = d ∷ []; pings = 0 } in
    let (q, e) = run_turns events (cancelled true ∷ rest) p a in
    let (q', e') = run_turns events (fired false ∷ rest) p a in
    (ap (λ (r : Pinger × Outcome). r.1) e, ap (λ (r : Pinger × Outcome). r.1) e')
start_ends d events rest false a =
    let p : Pinger = record { interval = d; started = d ∷ []; pings = 0 } in
    let (q, e) = run_turns events (cancelled false ∷ rest) p a in
    let (q', e') = run_turns events (fired false ∷ rest) p a in
    (ap (λ (r : Pinger × Outcome). r.1) e, ap (λ (r : Pinger × Outcome). r.1) e')

-- However long it has run, after any writes that succeeded and any requests, Pinger returns when
-- the context is cancelled; but when a ping cannot be written it does not return: it waits for a
-- value of the timer that it has received already. The context was not cancelled before the first
-- turn.
pub pinger_ends :
    (first : First) (events rest : List Event) (full : Bool)
    → first ≢ done
    → All IsTurn events
    → ((pinger first (events ++ cancelled full ∷ rest)).1 ≡ returned)
      × ((pinger first (events ++ fired false ∷ rest)).1 ≡ blocked)
unfolding pinger
pinger_ends done events rest full h a = absurd (h refl)
pinger_ends nothing events rest full h a = start_ends default_ping_interval events rest full a
pinger_ends (duration d) events rest full h a =
    start_ends (positive_or default_ping_interval d) events rest full a
