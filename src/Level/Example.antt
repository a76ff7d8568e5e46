-- ===== src/Level/Example.antt =====
-- chapter13/dynamic.go: the example, whose goroutine meets the main one at the channel `ready`. An error of
-- the file system ends the program by log.Fatal, and is no step here; the deferred calls are left out.
pub mod Balance
pub mod Errors
pub mod Turns
pub mod Invariant
pub mod Lines
use networking_in_go.Logs.{debug_level, info_level, error_level}
use networking_in_go.Level.{Event, file_event, watch_error, closed_channel, Logger}
use networking_in_go.Prelude.{
  Bytes, codes, leb, if◌then◌else◌, ℤ, pos, negsuc, [], ◌∷◌, true, false, List, ◌≡◌, Bool, ℕ, ◌++◌,
  ◌+◌, none, some, refl, inl, inr, Option, ◌-◌, ◌≤◌, ◌<◌, zero, suc, ap, sym, ◌∙◌,
}

-- A line of the output: its level and its message.
abbrev pub Line : Type 0
Line = ℤ × Bytes

-- The logger decides whether an entry of the second level is logged at the first.
unfoldable pub log_line : (ℤ → ℤ → Bool) → ℤ → Bytes → Logger → List Line → List Line
log_line enabled entry msg l out = if enabled l.level entry then out ++ (entry, msg) ∷ [] else out

-- The line that the main goroutine comes to next.
pub data Main : Type 0 where
  below creating closing awaiting_debug at_debug removing awaiting_info below_again at_info
        returned :
      Main

-- The goroutine that watches: it has not run, it is at its `select`, it sends on `ready`, or it has ended.
pub data Watcher : Type 0 where
  not_started stopped : Watcher
  selecting sending : ℤ → Watcher

pub record State : Type 0 where
  pub main : Main
  pub watcher : Watcher
  pub logger : Logger
  pub queue : List Event  -- what the watched directory has to tell
  pub printed : List Line

unfoldable pub initial : State
initial = record {
  main = below;
  watcher = not_started;
  logger = record { level = info_level; errors = 0 };
  queue = [];
  printed = [];
}

abbrev pub created : Event
created = file_event true true false

abbrev pub removed : Event
removed = file_event true false true

-- One turn of the loop.
unfoldable pub take_event : ℤ → Event → Logger → Logger × Watcher
take_event original (file_event false create remove) l = (l, selecting original)
take_event original (file_event true true remove) l =
    (record l { level = debug_level }, sending original)
take_event original (file_event true false true) l =
    (record l { level = original }, sending original)
take_event original (file_event true false false) l = (l, selecting original)
take_event original (watch_error msg) l = (record l { errors = l.errors + 1 }, selecting original)
take_event original closed_channel l = (l, stopped)

-- `zl.Error(err.Error())`, the line of one turn.
unfoldable pub print_error : (ℤ → ℤ → Bool) → Event → Logger → List Line → List Line
print_error enabled (file_event about create remove) l out = out
print_error enabled (watch_error msg) l out = log_line enabled error_level msg l out
print_error enabled closed_channel l out = out

-- What the two goroutines do; a value passes through `ready` when both are there.
pub data Step (enabled : ℤ → ℤ → Bool) (s : State) : State → Type 0 where
  starts :
      s.watcher ≡ not_started → Step enabled s (record s { watcher = selecting s.logger.level })
  takes :
      {original : ℤ} {e : Event} {rest : List Event}
      → s.watcher ≡ selecting original
      → s.queue ≡ e ∷ rest
      → Step enabled s (record s {
        queue = rest;
        logger = (take_event original e s.logger).0;
        watcher = (take_event original e s.logger).1;
        printed = print_error enabled e s.logger s.printed;
      })
  logs_below :
      s.main ≡ below
      → Step enabled s (record s {
        main = creating;
        printed =
            log_line enabled debug_level
              (codes "this is below the logger's threshold")
              s.logger
              s.printed;
      })
  creates :
      s.main ≡ creating
      → Step enabled s (record s { main = closing; queue = s.queue ++ created ∷ [] })
  closes : s.main ≡ closing → Step enabled s (record s { main = awaiting_debug })
  receives_debug :
      {original : ℤ}
      → s.main ≡ awaiting_debug
      → s.watcher ≡ sending original
      → Step enabled s (record s { main = at_debug; watcher = selecting original })
  logs_debug :
      s.main ≡ at_debug
      → Step enabled s (record s {
        main = removing;
        printed =
            log_line enabled debug_level
              (codes "this is now at the logger's threshold")
              s.logger
              s.printed;
      })
  removes :
      s.main ≡ removing
      → Step enabled s (record s { main = awaiting_info; queue = s.queue ++ removed ∷ [] })
  receives_info :
      {original : ℤ}
      → s.main ≡ awaiting_info
      → s.watcher ≡ sending original
      → Step enabled s (record s { main = below_again; watcher = selecting original })
  logs_again :
      s.main ≡ below_again
      → Step enabled s (record s {
        main = at_info;
        printed =
            log_line enabled debug_level
              (codes "this is below the logger's threshold again")
              s.logger
              s.printed;
      })
  logs_info :
      s.main ≡ at_info
      → Step enabled s (record s {
        main = returned;
        printed =
            log_line enabled info_level
              (codes "this is at the logger's current threshold")
              s.logger
              s.printed;
      })

-- An event that does not say that the file has come or gone.
pub data IsOther : Event → Type 0 where
  other_file : {create remove : Bool} → IsOther (file_event false create remove)
  other_change : IsOther (file_event true false false)
  other_error : {msg : Bytes} → IsOther (watch_error msg)

-- What the example can come to, with other events at any time.
pub data Reach (enabled : ℤ → ℤ → Bool) : State → Type 0 where
  start : Reach enabled initial
  later : {s t : State} → Reach enabled s → Step enabled s t → Reach enabled t
  happens :
      {s : State} {e : Event}
      → Reach enabled s
      → IsOther e
      → Reach enabled (record s { queue = s.queue ++ e ∷ [] })
