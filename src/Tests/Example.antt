-- ===== src/Tests/Example.antt =====
-- Tests of chapter13/dynamic.go: a run of the example, in which the mode of the file changes meanwhile.
use networking_in_go.Logs.{debug_level, info_level, error_level}
use networking_in_go.Level.Example.{
  State, creating, awaiting_debug, at_debug, returned, selecting, Reach, start, later, happens,
  Step, starts, takes, logs_below, creates, closes, receives_debug, logs_debug, removes,
  receives_info, logs_again, logs_info, other_change, other_error, print_error, created, initial,
  log_line, take_event,
}
use networking_in_go.Level.Example.Errors.{below_errors}
use networking_in_go.Level.Example.Lines.{example_prints, example_goes_on}
use networking_in_go.Level.{file_event}
use networking_in_go.Prelude.{int_leb, ℤ, codes, [], ◌∷◌, true, false, refl, ◌≡◌}

abbrev at_info : State
at_info = record {
  main = creating;
  watcher = selecting info_level;
  logger = record { level = info_level; errors = 0 };
  queue = [];
  printed = [];
}

-- The file is made, and its mode is changed, which the goroutine has not seen.
abbrev waiting : State
waiting = record at_info {
  main = awaiting_debug;
  queue = created ∷ file_event true false false ∷ [];
}

abbrev debugging : State
debugging = record at_info {
  main = at_debug;
  logger = record { level = debug_level; errors = 0 };
  queue = file_event true false false ∷ [];
}

abbrev ended : State
ended = record at_info {
  main = returned;
  logger = record { level = info_level; errors = 1 };
  printed =
      (debug_level, codes "this is now at the logger's threshold")
      ∷ (error_level, codes "overflow")
      ∷ (info_level, codes "this is at the logger's current threshold")
      ∷ [];
}

to_waiting : Reach int_leb waiting
unfolding initial log_line
to_waiting =
    later
      (happens (later (later (later start (starts refl)) (logs_below refl)) (creates refl))
        other_change)
      (closes refl)

to_debugging : Reach int_leb debugging
unfolding take_event print_error
to_debugging = later (later to_waiting (takes refl refl)) (receives_debug refl refl)

-- The watcher has an error behind the debug line.
to_ended : Reach int_leb ended
unfolding take_event log_line print_error
to_ended =
    let failed =
      happens (later to_debugging (logs_debug refl)) (other_error {msg = codes "overflow"}) in
    let removed = later failed (removes refl) in
    let told =
      later (later (later removed (takes refl refl)) (takes refl refl)) (takes refl refl) in
    later (later (later told (receives_info refl refl)) (logs_again refl)) (logs_info refl)

least : (level entry : ℤ) → int_leb level entry ≡ int_leb level entry
least level entry = refl

example_prints_example :
    below_errors ended.printed
    ≡ (debug_level, codes "this is now at the logger's threshold")
      ∷ (info_level, codes "this is at the logger's current threshold")
      ∷ []
example_prints_example = example_prints least to_ended refl

example_goes_on_example : (t : State) × Step int_leb waiting t
example_goes_on_example = example_goes_on {enabled = int_leb} least to_waiting (λ e. cc)
