-- ===== src/Level/Example/Invariant.antt =====
-- chapter13/dynamic.go: what the level, the events and the output have to do with the place of the main
-- goroutine.
use networking_in_go.Logs.{debug_level, info_level, error_level}
use networking_in_go.Level.Example.Balance.{eventual, pending, weight, shift}
use networking_in_go.Level.Example.{Main, Line, Watcher, State, take_event, Step, Bytes}
use networking_in_go.Level.{Event, file_event, watch_error, closed_channel, Logger}
use networking_in_go.Level.Example.{
  Main, below, creating, closing, awaiting_debug, at_debug, removing, awaiting_info, below_again,
  at_info, returned, Watcher, not_started, stopped, selecting, sending, State, Line, log_line,
  print_error, initial, created, removed, take_event, Step, starts, takes, logs_below, creates,
  closes, receives_debug, logs_debug, removes, receives_info, logs_again, logs_info, Reach, start,
  later, happens, IsOther, other_file, other_change, other_error,
}
use networking_in_go.Level.Example.Balance.{
  weight, pending, shift, eventual, pending-append, eventual-append, eventual_quiet,
}
use networking_in_go.Level.Example.Errors.{
  below_errors, below_errors-log_line, below_errors-print_error,
}
use networking_in_go.Prelude.{
  int_leb, Bytes, Bool, if◌then◌else◌, ℤ, [], ◌∷◌, true, false, refl, List, ◌≡◌, ℕ, ◌++◌, ◌+◌, ◌≤◌,
  arith, codes, ap, sym, ◌∙◌,
}

abbrev pub first_line : Line
first_line = (debug_level, codes "this is now at the logger's threshold")

abbrev pub second_line : Line
second_line = (info_level, codes "this is at the logger's current threshold")

-- How many sends on `ready` the main goroutine still waits for, the level that the file asks for, and
-- what is printed so far.
pub record Due : Type 0 where
  pub waits : ℕ
  pub target : ℤ
  pub printed : List Line

abbrev pub due : Main → Due
due below = record { waits = 0; target = info_level; printed = [] }
due creating = record { waits = 0; target = info_level; printed = [] }
due closing = record { waits = 1; target = debug_level; printed = [] }
due awaiting_debug = record { waits = 1; target = debug_level; printed = [] }
due at_debug = record { waits = 0; target = debug_level; printed = [] }
due removing = record { waits = 0; target = debug_level; printed = first_line ∷ [] }
due awaiting_info = record { waits = 1; target = info_level; printed = first_line ∷ [] }
due below_again = record { waits = 0; target = info_level; printed = first_line ∷ [] }
due at_info = record { waits = 0; target = info_level; printed = first_line ∷ [] }
due returned = record { waits = 0; target = info_level; printed = first_line ∷ second_line ∷ [] }

abbrev pub sends : Watcher → ℕ
sends w = elim w [ not_started ↦ 0 | stopped ↦ 0 | selecting o ↦ 0 | sending o ↦ 1 ]

-- The goroutine goes back to the info level, and has not ended.
abbrev pub Known : Watcher → ℤ → Type 0
Known w level = elim w [
  | not_started ↦ level ≡ info_level
  | stopped ↦ ⊥
  | selecting o ↦ o ≡ info_level
  | sending o ↦ o ≡ info_level
]

pub record IsBalanced (s : State) : Type 0 where
  pub level_due : eventual s.queue s.logger.level ≡ (due s.main).target
  pub sends_due : pending s.queue + sends s.watcher ≡ (due s.main).waits
  pub known : Known s.watcher s.logger.level
  pub lines : below_errors s.printed ≡ (due s.main).printed

waits_le : (m : Main) → (due m).waits ≤ 1
waits_le below = omega arith
waits_le creating = omega arith
waits_le closing = omega arith
waits_le awaiting_debug = omega arith
waits_le at_debug = omega arith
waits_le removing = omega arith
waits_le awaiting_info = omega arith
waits_le below_again = omega arith
waits_le at_info = omega arith
waits_le returned = omega arith

take_event_lem :
    (o : ℤ) (e : Event) (l : Logger)
    → o ≡ info_level
    → weight e ≤ 1
    → ((take_event o e l).0.level ≡ shift e l.level)
      × (sends (take_event o e l).1 ≡ weight e)
      × Known (take_event o e l).1 (take_event o e l).0.level
unfolding take_event
take_event_lem o (file_event false create remove) l h k = (refl, refl, h)
take_event_lem o (file_event true true remove) l h k = (refl, refl, h)
take_event_lem o (file_event true false true) l h k = (h, refl, h)
take_event_lem o (file_event true false false) l h k = (refl, refl, h)
take_event_lem o (watch_error msg) l h k = (refl, refl, h)
take_event_lem o closed_channel l h k = absurd (omega arith)

-- Where no send is waited for, the level is the one that the file asks for.
level_now :
    {s : State} {m : Main}
    → IsBalanced s
    → s.main ≡ m
    → (due m).waits ≡ 0
    → s.logger.level ≡ (due m).target
level_now {s = s} {m = m} h e k =
    let w : (due s.main).waits ≡ 0 = ap (λ (x : Main). (due x).waits) e ∙ k in
    sym (eventual_quiet s.queue s.logger.level (omega (arith, h.sends_due)))
    ∙ h.level_due
    ∙ ap (λ (x : Main). (due x).target) e

-- What is documented of a level: it lets pass what is at it or above.
abbrev pub Least : (ℤ → ℤ → Bool) → Type 0
Least enabled = (level entry : ℤ) → enabled level entry ≡ int_leb level entry

-- A line of the main goroutine, between two places at which nothing else changes.
logged :
    {enabled : ℤ → ℤ → Bool} {s : State} (least : Least enabled) (m m' : Main) (entry : ℤ)
    (msg : Bytes)
    → IsBalanced s
    → s.main ≡ m
    → (due m).waits ≡ 0
    → (due m').waits ≡ 0
    → (due m').target ≡ (due m).target
    → int_leb error_level entry ≡ false
    → (if int_leb (due m).target entry
        then (due m).printed ++ (entry, msg) ∷ []
        else (due m).printed)
      ≡ (due m').printed
    → IsBalanced (record s { main = m'; printed = log_line enabled entry msg s.logger s.printed })
unfolding log_line
logged {enabled = enabled} {s = s} least m m' entry msg h e k k' g low p = record {
  level_due = h.level_due ∙ ap (λ (x : Main). (due x).target) e ∙ sym g;
  sends_due = h.sends_due ∙ ap (λ (x : Main). (due x).waits) e ∙ k ∙ sym k';
  known = h.known;
  lines =
      below_errors-log_line enabled entry msg s.logger s.printed low
      ∙ rw (h.lines, e, level_now h e k, least (due m).target entry) p;
}

-- The end of a wait, where the goroutine sends.
received :
    {s : State} {o : ℤ} (m m' : Main)
    → IsBalanced s
    → s.main ≡ m
    → s.watcher ≡ sending o
    → (due m).waits ≡ 1
    → (due m').waits ≡ 0
    → (due m').target ≡ (due m).target
    → (due m').printed ≡ (due m).printed
    → IsBalanced (record s { main = m'; watcher = selecting o })
received {s = s} {o = o} m m' h e f k k' g p = record {
  level_due = h.level_due ∙ ap (λ (x : Main). (due x).target) e ∙ sym g;
  sends_due =
      let w = h.sends_due ∙ ap (λ (x : Main). (due x).waits) e in
      let w' : pending s.queue + sends (sending o) ≡ (due m).waits = rw f at w in omega arith;
  known = rw f at h.known;
  lines = h.lines ∙ ap (λ (x : Main). (due x).printed) e ∙ sym p;
}

-- The file is made or removed, which the goroutine is to see.
told :
    {s : State} (m m' : Main) (e : Event)
    → IsBalanced s
    → s.main ≡ m
    → (due m).waits + weight e ≡ (due m').waits
    → shift e (due m).target ≡ (due m').target
    → (due m').printed ≡ (due m).printed
    → IsBalanced (record s { main = m'; queue = s.queue ++ e ∷ [] })
told {s = s} m m' d h e k g p = record {
  level_due =
      eventual-append s.queue d s.logger.level
      ∙ ap (shift d) (h.level_due ∙ ap (λ (x : Main). (due x).target) e)
      ∙ g;
  sends_due =
      let w = h.sends_due ∙ ap (λ (x : Main). (due x).waits) e in
      omega (arith, pending-append s.queue d);
  known = h.known;
  lines = h.lines ∙ ap (λ (x : Main). (due x).printed) e ∙ sym p;
}

taken :
    (enabled : ℤ → ℤ → Bool) {s : State} {o : ℤ} {e : Event} {rest : List Event}
    → IsBalanced s
    → s.watcher ≡ selecting o
    → s.queue ≡ e ∷ rest
    → IsBalanced (record s {
      queue = rest;
      logger = (take_event o e s.logger).0;
      watcher = (take_event o e s.logger).1;
      printed = print_error enabled e s.logger s.printed;
    })
unfolding pending eventual
taken enabled {s = s} {o = o} {e = e} {rest = rest} h f g =
    let w : pending (e ∷ rest) + sends (selecting o) ≡ (due s.main).waits =
      rw (f, g) at h.sends_due in
    let fits : weight e ≤ 1 = omega (arith, waits_le s.main) in
    let (l, n, k) = take_event_lem o e s.logger (rw f at h.known) fits in
    record {
      level_due = ap (eventual rest) l ∙ (rw g at h.level_due);
      sends_due = omega arith;
      known = k;
      lines = below_errors-print_error enabled e s.logger s.printed ∙ h.lines;
    }

step-IsBalanced :
    {enabled : ℤ → ℤ → Bool} {s t : State}
    → Least enabled
    → Step enabled s t
    → IsBalanced s
    → IsBalanced t
step-IsBalanced least (starts e) h = record {
  level_due = h.level_due;
  sends_due = rw e at h.sends_due;
  known = rw e at h.known;
  lines = h.lines;
}
step-IsBalanced least (takes e f) h = taken _ h e f
step-IsBalanced least (logs_below e) h =
    logged least below creating _ _ h e refl refl refl refl refl
step-IsBalanced least (creates e) h = told creating closing created h e (omega arith) refl refl
step-IsBalanced least (closes e) h = record {
  level_due = h.level_due ∙ ap (λ (x : Main). (due x).target) e;
  sends_due = h.sends_due ∙ ap (λ (x : Main). (due x).waits) e;
  known = h.known;
  lines = h.lines ∙ ap (λ (x : Main). (due x).printed) e;
}
step-IsBalanced least (receives_debug e f) h =
    received awaiting_debug at_debug h e f refl refl refl refl
step-IsBalanced least (logs_debug e) h =
    logged least at_debug removing _ _ h e refl refl refl refl refl
step-IsBalanced least (removes e) h =
    told removing awaiting_info removed h e (omega arith) refl refl
step-IsBalanced least (receives_info e f) h =
    received awaiting_info below_again h e f refl refl refl refl
step-IsBalanced least (logs_again e) h =
    logged least below_again at_info _ _ h e refl refl refl refl refl
step-IsBalanced least (logs_info e) h =
    logged least at_info returned _ _ h e refl refl refl refl refl

other-IsBalanced :
    {s : State} {e : Event}
    → IsOther e
    → IsBalanced s
    → IsBalanced (record s { queue = s.queue ++ e ∷ [] })
other-IsBalanced {s = s} (other_file {create} {remove}) h =
    told s.main s.main (file_event false create remove) h refl (omega arith) refl refl
other-IsBalanced {s = s} other_change h =
    told s.main s.main (file_event true false false) h refl (omega arith) refl refl
other-IsBalanced {s = s} (other_error {msg}) h =
    told s.main s.main (watch_error msg) h refl (omega arith) refl refl

pub reach-IsBalanced :
    {enabled : ℤ → ℤ → Bool} {s : State} → Least enabled → Reach enabled s → IsBalanced s
unfolding initial pending eventual below_errors
reach-IsBalanced least start = record {
  level_due = refl;
  sends_due = omega arith;
  known = refl;
  lines = refl;
}
reach-IsBalanced least (later q step) = step-IsBalanced least step (reach-IsBalanced least q)
reach-IsBalanced least (happens q o) = other-IsBalanced o (reach-IsBalanced least q)
