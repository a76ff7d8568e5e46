-- ===== src/Level/Example/Balance.antt =====
-- chapter13/dynamic.go: what the events that are not taken yet will do.
use networking_in_go.Logs.{debug_level, info_level}
use networking_in_go.Level.Example.{}
use networking_in_go.Level.{Event, file_event, watch_error, closed_channel}
use networking_in_go.Prelude.{ℤ, [], ◌∷◌, true, false, refl, List, ◌≡◌, ℕ, ◌++◌, ◌+◌, arith}

-- How often `ready` is sent for an event; the end of a channel counts twice, more than there ever is.
abbrev pub weight : Event → ℕ
weight (file_event false create remove) = 0
weight (file_event true true remove) = 1
weight (file_event true false true) = 1
weight (file_event true false false) = 0
weight (watch_error msg) = 0
weight closed_channel = 2

unfoldable pub pending : List Event → ℕ
pending [] = 0
pending (e ∷ q) = weight e + pending q

-- The level behind an event, and behind those of a queue.
abbrev pub shift : Event → ℤ → ℤ
shift (file_event false create remove) level = level
shift (file_event true true remove) level = debug_level
shift (file_event true false true) level = info_level
shift (file_event true false false) level = level
shift (watch_error msg) level = level
shift closed_channel level = level

unfoldable pub eventual : List Event → ℤ → ℤ
eventual [] level = level
eventual (e ∷ q) level = eventual q (shift e level)

pub pending-append : (q : List Event) (e : Event) → pending (q ++ e ∷ []) ≡ pending q + weight e
unfolding pending
pending-append [] e = omega arith
pending-append (d ∷ q) e = omega (arith, pending-append q e)

pub eventual-append :
    (q : List Event) (e : Event) (level : ℤ)
    → eventual (q ++ e ∷ []) level ≡ shift e (eventual q level)
unfolding eventual
eventual-append [] e level = refl
eventual-append (d ∷ q) e level = eventual-append q e (shift d level)

pub eventual_quiet : (q : List Event) (level : ℤ) → pending q ≡ 0 → eventual q level ≡ level
unfolding pending eventual
eventual_quiet [] level h = refl
eventual_quiet (file_event false create remove ∷ q) level h = eventual_quiet q level (omega arith)
eventual_quiet (file_event true true remove ∷ q) level h = absurd (omega arith)
eventual_quiet (file_event true false true ∷ q) level h = absurd (omega arith)
eventual_quiet (file_event true false false ∷ q) level h = eventual_quiet q level (omega arith)
eventual_quiet (watch_error msg ∷ q) level h = eventual_quiet q level (omega arith)
eventual_quiet (closed_channel ∷ q) level h = absurd (omega arith)
