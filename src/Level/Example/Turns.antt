-- ===== src/Level/Example/Turns.antt =====
-- chapter13/dynamic.go: the turns of the goroutine against its loop.
use networking_in_go.Level.{
  Event, file_event, watch_error, closed_channel, Logger, Stop, ended, watch, send,
}
use networking_in_go.Level.Example.{Watcher, not_started, stopped, selecting, sending, take_event}
use networking_in_go.Prelude.{ℤ, ◌∷◌, true, false, refl, List, ◌≡◌, ℕ, suc}

-- The loop behind a turn, with n receives left, and one more if this turn does not send.
behind : ℤ → List Event → ℕ → Logger × Watcher → Logger × Stop
behind original rest n (l, not_started) = watch original rest (suc n) l
behind original rest n (l, stopped) = (l, ended)
behind original rest n (l, selecting o) = watch original rest (suc n) l
behind original rest n (l, sending o) = watch original rest n l

-- The loop takes one turn after the other.
watch-take_event :
    (original : ℤ) (e : Event) (rest : List Event) (n : ℕ) (l : Logger)
    → watch original (e ∷ rest) (suc n) l ≡ behind original rest n (take_event original e l)
unfolding watch send take_event behind
watch-take_event original (file_event false create remove) rest n l = refl
watch-take_event original (file_event true true remove) rest n l = refl
watch-take_event original (file_event true false true) rest n l = refl
watch-take_event original (file_event true false false) rest n l = refl
watch-take_event original (watch_error msg) rest n l = refl
watch-take_event original closed_channel rest n l = refl
