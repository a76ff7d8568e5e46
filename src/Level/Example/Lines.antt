-- ===== src/Level/Example/Lines.antt =====
-- chapter13/dynamic.go: what the example prints, and that it does not come to a standstill.
use networking_in_go.Logs.{debug_level, info_level}
use networking_in_go.Level.Example.Balance.{pending}
use networking_in_go.Level.Example.{Main, Watcher, State, Step}
use networking_in_go.Level.{Event}
use networking_in_go.Level.Example.{
  Main, below, creating, closing, awaiting_debug, at_debug, removing, awaiting_info, below_again,
  at_info, returned, Watcher, not_started, stopped, selecting, sending, State, Step, starts, takes,
  logs_below, creates, closes, receives_debug, logs_debug, removes, receives_info, logs_again,
  logs_info, Reach,
}
use networking_in_go.Level.Example.Balance.{pending}
use networking_in_go.Level.Example.Errors.{below_errors}
use networking_in_go.Level.Example.Invariant.{Least, due, sends, IsBalanced, reach-IsBalanced}
use networking_in_go.Prelude.{Bool, ℤ, [], ◌∷◌, refl, List, ◌≡◌, ◌≢◌, ◌+◌, arith, codes, ap, ◌∙◌}

-- However the two goroutines interleave, and whatever else happens in the directory and to the
-- watcher, of lines below the level of an error the example has printed, when it returns, its two in
-- their order and no other; at the level of an error the watcher's errors are logged to the same
-- output. The logger lets pass what is at its level or above.
pub example_prints :
    {enabled : ℤ → ℤ → Bool} {s : State}
    → Least enabled
    → Reach enabled s
    → s.main ≡ returned
    → below_errors s.printed
      ≡ (debug_level, codes "this is now at the logger's threshold")
        ∷ (info_level, codes "this is at the logger's current threshold")
        ∷ []
example_prints least q e = (reach-IsBalanced least q).lines ∙ ap (λ (x : Main). (due x).printed) e

module _ {enabled : ℤ → ℤ → Bool} {s : State} (h : IsBalanced s) where
  -- A send is waited for.
  awaits :
      (m : Main) (w : Watcher) (queue : List Event)
      → ((o : ℤ) → s.watcher ≡ sending o → (t : State) × Step enabled s t)
      → s.main ≡ m
      → (due m).waits ≡ 1
      → s.watcher ≡ w
      → s.queue ≡ queue
      → (t : State) × Step enabled s t
  unfolding pending
  awaits m not_started queue receive e k f g = (_, starts f)
  awaits m stopped queue receive e k f g = absurd (rw f at h.known)
  awaits m (sending o) queue receive e k f g = receive o f
  awaits m (selecting o) (d ∷ rest) receive e k f g = (_, takes f g)
  awaits m (selecting o) [] receive e k f g =
      let w = h.sends_due ∙ ap (λ (x : Main). (due x).waits) e ∙ k in
      let w' : pending [] + sends (selecting o) ≡ 1 = rw (f, g) at w in absurd (omega arith)

  goes_on : (m : Main) → s.main ≡ m → m ≢ returned → (t : State) × Step enabled s t
  goes_on below e k = (_, logs_below e)
  goes_on creating e k = (_, creates e)
  goes_on closing e k = (_, closes e)
  goes_on awaiting_debug e k =
      awaits awaiting_debug s.watcher s.queue (λ o f. (_, receives_debug e f)) e refl refl refl
  goes_on at_debug e k = (_, logs_debug e)
  goes_on removing e k = (_, removes e)
  goes_on awaiting_info e k =
      awaits awaiting_info s.watcher s.queue (λ o f. (_, receives_info e f)) e refl refl refl
  goes_on below_again e k = (_, logs_again e)
  goes_on at_info e k = (_, logs_info e)
  goes_on returned e k = absurd (k refl)

-- The two goroutines never wait for each other: until the example returns one of them has a step to
-- make, without another event. The logger lets pass what is at its level or above.
pub example_goes_on :
    {enabled : ℤ → ℤ → Bool} {s : State}
    → Least enabled
    → Reach enabled s
    → s.main ≢ returned
    → (t : State) × Step enabled s t
example_goes_on {s = s} least q k = goes_on (reach-IsBalanced least q) s.main refl k
