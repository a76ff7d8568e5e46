-- ===== src/Ports/Main.antt =====
-- chapter4/port.go: main, with its argument, what it prints and the time that it takes. How long a dial
-- takes is what the network does; the flags are arguments.
use networking_in_go.Ports.{Finish, ended, exited, dialing, goes_on}
use native.Mathlib.Nat.{suc-mul}
use networking_in_go.Prelude.{
  ap, ◌∙◌, Bytes, ℕ, zero, suc, ◌+◌, ◌*◌, ◌≤◌, ℤ, pos, negsuc, List, [], ◌∷◌, All, ◌≡◌, true, false,
  if◌then◌else◌, arith, ◌++◌, ap, ◌∙◌,
}

pub record Flags : Type 0 where
  pub count : ℤ
  pub interval : ℕ  -- nanoseconds, as all times
  pub timeout : ℕ

-- How long a dial took, and its error, which is temporary or not.
pub data Dialled : Type 0 where
  connected : ℕ → Dialled
  temporary permanent : ℕ → Bytes → Dialled

pub data Line : Type 0 where
  required usage ctrl_c : Line
  ping : Bytes → Line
  number took : ℕ → Line
  fail_in : ℕ → Bytes → Line

pub record Result : Type 0 where
  pub printed : List Line
  pub finish : Finish
  pub elapsed : ℕ

-- The rest of the loop behind a turn that has slept.
unfoldable pub slept : Flags → ℕ → Line → Line → Result → Result
slept flags time a b r = record r {
  printed = a ∷ b ∷ r.printed;
  elapsed = time + flags.interval + r.elapsed;
}

turn : Flags → ℕ → Dialled → Result → Result
unfolding slept
turn flags msg (connected time) rest = slept flags time (number msg) (took time) rest
turn flags msg (temporary time e) rest = slept flags time (number msg) (fail_in time e) rest
turn flags msg (permanent time e) rest = record {
  printed = number msg ∷ fail_in time e ∷ [];
  finish = exited;
  elapsed = time;
}

-- The loop, for the number of the last attempt.
unfoldable pub run_from : Flags → ℕ → List Dialled → Result
unfolding turn goes_on
run_from flags msg [] = record {
  printed = [];
  finish = if goes_on flags.count msg then dialing else ended;
  elapsed = 0;
}
run_from flags msg (d ∷ rest) =
    let r = turn flags (msg + 1) d (run_from flags (msg + 1) rest) in
    if goes_on flags.count msg then r else record { printed = []; finish = ended; elapsed = 0 }

-- `if *count <= 0 { … }`.
unfoldable pub hint : ℤ → List Line
hint (negsuc n) = ctrl_c ∷ []
hint (pos zero) = ctrl_c ∷ []
hint (pos (suc n)) = []

unfoldable pub run_target : Flags → Bytes → List Dialled → Result
unfolding run_from hint
run_target flags target dials =
    let r = run_from flags 0 dials in
    record r { printed = ping target ∷ (hint flags.count ++ r.printed) }

unfoldable pub main : Flags → List Bytes → List Dialled → Result
unfolding run_target
main flags (target ∷ []) dials = run_target flags target dials
main flags [] dials = record { printed = required ∷ usage ∷ []; finish = exited; elapsed = 0 }
main flags (a ∷ b ∷ rest) dials = record {
  printed = required ∷ usage ∷ [];
  finish = exited;
  elapsed = 0;
}

-- A dial takes no more than the time-out.
abbrev pub InTime : Flags → Dialled → Type 0
InTime flags (connected time) = time ≤ flags.timeout
InTime flags (temporary time e) = time ≤ flags.timeout
InTime flags (permanent time e) = time ≤ flags.timeout

turn_elapsed :
    (flags : Flags) (msg : ℕ) (d : Dialled) (r : Result)
    → InTime flags d
    → (turn flags msg d r).elapsed ≤ (flags.timeout + flags.interval) + r.elapsed
unfolding turn slept
turn_elapsed flags msg (connected time) r h = omega arith
turn_elapsed flags msg (temporary time e) r h = omega arith
turn_elapsed flags msg (permanent time e) r h = omega arith

run_from-elapsed :
    (n left : ℕ) (flags : Flags) (msg : ℕ) (dials : List Dialled)
    → flags.count ≡ pos (suc n)
    → suc n ≡ msg + left
    → All (InTime flags) dials
    → (run_from flags msg dials).elapsed ≤ left * (flags.timeout + flags.interval)
unfolding run_from goes_on
run_from-elapsed n left flags msg [] e k h = omega arith
run_from-elapsed n zero flags msg (d ∷ rest) e k h =
    let over : goes_on (pos (suc n)) msg ≡ false = ground arith in
    let here : goes_on flags.count msg ≡ false = ap (λ c. goes_on c msg) e ∙ over in
    rw here (omega arith)
run_from-elapsed n (suc left) flags msg (d ∷ rest) e k h =
    let on : goes_on (pos (suc n)) msg ≡ true = ground arith in
    let first = turn_elapsed flags (msg + 1) d (run_from flags (msg + 1) rest) h.0 in
    let later = run_from-elapsed n left flags (msg + 1) rest e (omega arith) h.1 in
    let here : goes_on flags.count msg ≡ true = ap (λ c. goes_on c msg) e ∙ on in
    rw here (omega (arith, suc-mul left (flags.timeout + flags.interval)))

-- With a positive count main takes no longer than that many times the time-out and the interval, however
-- many dials there could be, if no dial takes longer than the time-out.
pub main-elapsed :
    (n : ℕ) (flags : Flags) (args : List Bytes) (dials : List Dialled)
    → flags.count ≡ pos (suc n)
    → All (InTime flags) dials
    → (main flags args dials).elapsed ≤ suc n * (flags.timeout + flags.interval)
unfolding main run_target
main-elapsed n flags [] dials e h = omega arith
main-elapsed n flags (a ∷ b ∷ rest) dials e h = omega arith
main-elapsed n flags (target ∷ []) dials e h =
    run_from-elapsed n (suc n) flags 0 dials e (omega arith) h
