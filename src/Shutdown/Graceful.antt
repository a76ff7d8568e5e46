-- ===== src/Shutdown/Graceful.antt =====
-- chapter9/push.go: how `run` ends.
use networking_in_go.Shutdown.{
  Caller, serving, waiting, returned, Watcher, watching, shutting, finished, State, Step, Reach,
  start, later, initial, connects, disconnects, interrupted, closed, failed, shut_down, returns,
}
use networking_in_go.Prelude.{◌≢◌, Bytes, arith, refl, Option, ◌≡◌, ℕ, ◌+◌, ◌≤◌, ◌<◌, zero, suc}

-- After Shutdown no connection is open, and `run` has returned only after Shutdown.
record IsOrderly (s : State) : Type 0 where
  pub idle : s.watcher ≡ finished → s.connections ≡ 0
  pub late : (r : Option Bytes) → s.caller ≡ returned r → s.watcher ≡ finished

step-IsOrderly : {s t : State} → Step s t → IsOrderly s → IsOrderly t
step-IsOrderly (connects e f) h = record { idle = λ k. cc; late = h.late }
step-IsOrderly (disconnects e) h = record {
  idle = λ k. let z = h.idle k in ground arith;
  late = h.late;
}
step-IsOrderly (interrupted e) h = record { idle = λ k. cc; late = λ r k. let z = h.late r k in cc }
step-IsOrderly (closed e f) h = record { idle = h.idle; late = λ r k. cc }
step-IsOrderly (failed r e) h = record { idle = h.idle; late = λ r k. cc }
step-IsOrderly (shut_down e f) h = record { idle = λ k. f; late = λ r k. refl }
step-IsOrderly (returns e f) h = record { idle = h.idle; late = λ r k. f }

reach-IsOrderly : {cert pkey : Bytes} {s : State} → Reach cert pkey s → IsOrderly s
unfolding initial
reach-IsOrderly start = record { idle = λ k. cc; late = λ r k. cc }
reach-IsOrderly (later q step) = step-IsOrderly step (reach-IsOrderly q)

-- Whenever `run` has returned, Shutdown has, and no connection is open.
pub run-graceful :
    {cert pkey : Bytes} {s : State} {r : Option Bytes}
    → Reach cert pkey s
    → s.caller ≡ returned r
    → (s.watcher ≡ finished) × (s.connections ≡ 0)
run-graceful q e = let h = reach-IsOrderly q in let w = h.late _ e in (w, h.idle w)

-- If the server stops by an error and no signal comes, `run` does not return: it waits for the signal.
pub run-blocked :
    {cert pkey : Bytes} {s : State} {r : Option Bytes}
    → Reach cert pkey s
    → s.watcher ≡ watching
    → s.caller ≢ returned r
run-blocked q e f = let w = (run-graceful q f).0 in cc

-- What is left to do after a signal.
abbrev caller_rank : Caller → ℕ
caller_rank serving = 2
caller_rank (waiting r) = 1
caller_rank (returned r) = 0

abbrev watcher_rank : Watcher → ℕ
watcher_rank watching = 2
watcher_rank shutting = 1
watcher_rank finished = 0

abbrev pub rank : State → ℕ
rank s = s.connections + caller_rank s.caller + watcher_rank s.watcher

step_rank :
    {s t : State} → Step s t → s.watcher ≢ watching → (rank t < rank s) × (t.watcher ≢ watching)
step_rank (connects e f) h = absurd (h f)
step_rank (disconnects e) h = (ground arith, h)
step_rank (interrupted e) h = absurd (h e)
step_rank (closed e f) h = (rw e (omega arith), h)
step_rank (failed r e) h = (rw e (omega arith), h)
step_rank (shut_down e f) h = (rw e (omega arith), λ k. cc)
step_rank (returns e f) h = (rw e (omega arith), h)

-- So many steps lead from one state to the other.
pub data Steps : ℕ → State → State → Type 0 where
  stay : {s : State} → Steps 0 s s
  go : {n : ℕ} {s t u : State} → Step s t → Steps n t u → Steps (suc n) s u

rank-Steps : {n : ℕ} {s t : State} → Steps n s t → s.watcher ≢ watching → n + rank t ≤ rank s
rank-Steps stay h = omega arith
rank-Steps (go step q) h = let (lt, k) = step_rank step h in let le = rank-Steps q k in omega arith

caller_rank_le : (c : Caller) → caller_rank c ≤ 2
caller_rank_le serving = omega arith
caller_rank_le (waiting r) = omega arith
caller_rank_le (returned r) = omega arith

watcher_rank_le : (w : Watcher) → w ≢ watching → watcher_rank w ≤ 1
watcher_rank_le watching h = absurd (h refl)
watcher_rank_le shutting h = omega arith
watcher_rank_le finished h = omega arith

-- After a signal, only so many steps can follow as connections are open, and three more.
pub run-Steps : {n : ℕ} {s t : State} → Steps n s t → s.watcher ≢ watching → n ≤ s.connections + 3
run-Steps {s = s} q h =
    omega (arith, rank-Steps q h, caller_rank_le s.caller, watcher_rank_le s.watcher h)

module _ (s : State) (h : s.watcher ≢ watching) (stuck : (t : State) → ¬ Step s t) where
  stuck_returned :
      (c : Caller) (w : Watcher) (n : ℕ)
      → s.caller ≡ c
      → s.watcher ≡ w
      → s.connections ≡ n
      → (r : Option Bytes) × (s.caller ≡ returned r)
  stuck_returned c w (suc n) e f g = absurd (stuck _ (disconnects g))
  stuck_returned c watching zero e f g = absurd (h f)
  stuck_returned c shutting zero e f g = absurd (stuck _ (shut_down f g))
  stuck_returned serving finished zero e f g = absurd (stuck _ (closed e h))
  stuck_returned (waiting r) finished zero e f g = absurd (stuck _ (returns e f))
  stuck_returned (returned r) finished zero e f g = (r, e)

-- After a signal, a state that has no next step is one in which `run` has returned.
pub run-returned :
    (s : State)
    → s.watcher ≢ watching
    → ((t : State) → ¬ Step s t)
    → (r : Option Bytes) × (s.caller ≡ returned r)
run-returned s h stuck = stuck_returned s h stuck s.caller s.watcher s.connections refl refl refl
