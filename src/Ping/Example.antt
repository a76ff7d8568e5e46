-- ===== src/Ping/Example.antt =====
-- chapter3/ping.go: ExamplePinger, a pinger whose pings are read one by one, each after a reset or none.
use networking_in_go.Ping.{
  Event, cancelled, reset_to, fired, Outcome, returned, Pinger, positive_or, restart, run, duration,
  start, pinger, stop_timer, timer_of,
}
use networking_in_go.Prelude.{
  ℤ, pos, negsuc, length, arith, append_assoc, [], ◌∷◌, true, false, refl, List, ◌≡◌, ℕ, ◌++◌, ◌+◌,
  sym, ◌∙◌, ◌*◌, append-nil,
}

-- `receivePing`: a positive duration is sent to the pinger, and a ping is read. The pinger takes the duration
-- before its timer expires.
unfoldable pub receive_ping : ℤ → List Event
receive_ping (pos ℕ.zero) = fired true ∷ []
receive_ping (pos (ℕ.suc n)) = reset_to (pos (ℕ.suc n)) false ∷ fired true ∷ []
receive_ping (negsuc n) = fired true ∷ []

-- The loop, and `cancel`.
unfoldable pub receive_all : List ℤ → List Event
unfolding receive_ping
receive_all [] = cancelled false ∷ []
receive_all (d ∷ ds) = receive_ping d ++ receive_all ds

abbrev pub millisecond : ℕ
millisecond = 1_000_000

-- The durations of the example, in milliseconds; -1 is no duration.
abbrev pub example_durations : List ℤ
example_durations =
    pos 0
    ∷ pos (200 * millisecond)
    ∷ pos (300 * millisecond)
    ∷ pos 0
    ∷ negsuc 999_999
    ∷ negsuc 999_999
    ∷ negsuc 999_999
    ∷ []

unfoldable pub example_pinger : Pinger × Outcome
unfolding pinger receive_all
example_pinger = pinger (duration (pos (1000 * millisecond))) (receive_all example_durations)

-- What the timer is started with: for a reset and for the ping after it, or for the ping alone.
pub starts : ℕ → List ℤ → List ℕ
starts i [] = []
starts i (pos ℕ.zero ∷ ds) = i ∷ starts i ds
starts i (pos (ℕ.suc n) ∷ ds) = ℕ.suc n ∷ ℕ.suc n ∷ starts (ℕ.suc n) ds
starts i (negsuc n ∷ ds) = i ∷ starts i ds

-- The last positive duration, or the first argument.
pub last_positive : ℕ → List ℤ → ℕ
last_positive i [] = i
last_positive i (d ∷ ds) = last_positive (positive_or i d) ds

-- A pinger after so many pings.
abbrev pub Ended : Pinger → List ℤ → Pinger × Outcome → Type 0
Ended p ds (q, o) =
    (o ≡ returned)
    × (q.pings ≡ p.pings + length ds)
    × (q.interval ≡ last_positive p.interval ds)
    × (q.started ≡ p.started ++ starts p.interval ds)

run-receive_all : (p : Pinger) (ds : List ℤ) → Ended p ds (run p (receive_all ds))
unfolding run receive_all starts last_positive positive_or restart stop_timer timer_of
run-receive_all p [] = (refl, omega arith, refl, sym (append-nil p.started))
run-receive_all p (pos ℕ.zero ∷ ds) =
    let (o, k, i, e) = run-receive_all (restart (record p { pings = p.pings + 1 })) ds in
    (o, omega arith, i, e ∙ append_assoc p.started (p.interval ∷ []) (starts p.interval ds))
run-receive_all p (pos (ℕ.suc n) ∷ ds) =
    let q = restart (record p { interval = ℕ.suc n }) in
    let (o, k, i, e) = run-receive_all (restart (record q { pings = p.pings + 1 })) ds in
    (
      o,
      omega arith,
      i,
      e
          ∙ append_assoc (p.started ++ ℕ.suc n ∷ []) (ℕ.suc n ∷ []) (starts (ℕ.suc n) ds)
          ∙ append_assoc p.started (ℕ.suc n ∷ []) (ℕ.suc n ∷ starts (ℕ.suc n) ds),
    )
run-receive_all p (negsuc n ∷ ds) =
    let (o, k, i, e) = run-receive_all (restart (record p { pings = p.pings + 1 })) ds in
    (o, omega arith, i, e ∙ append_assoc p.started (p.interval ∷ []) (starts p.interval ds))

-- The beginning of a pinger whose first duration is positive.
abbrev pub begun : ℕ → Pinger
begun n = record { interval = ℕ.suc n; started = ℕ.suc n ∷ []; pings = 0 }

-- Whatever durations the reader asks for, one ping is read for each time around its loop, each after the last
-- positive duration, and the pinger returns when the context is cancelled, so that `<-done` does not block.
pub pinger-receive_all :
    (n : ℕ) (ds : List ℤ) → Ended (begun n) ds (pinger (duration (pos (ℕ.suc n))) (receive_all ds))
unfolding pinger start positive_or
pinger-receive_all n ds = run-receive_all (begun n) ds
