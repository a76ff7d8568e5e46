-- ===== src/Ports.antt =====
-- chapter4/port.go: the loop of main, over what each dial gives. Main has the whole of it, with the times.
pub mod Attempts
pub mod Main
use networking_in_go.Prelude.{
  ℤ, pos, negsuc, ltb, if◌then◌else◌, none, some, ◌∷◌, true, false, refl, inl, inr, Option, List,
  ◌≡◌, Bool, ℕ, ◌++◌, ◌+◌, ◌-◌, ◌≤◌, ◌<◌, zero, suc, ap, sym, ◌∙◌, [],
}

-- An error that is no `net.Error` counts as one that is not temporary.
pub data Dial : Type 0 where
  connected temporary permanent : Dial

pub data Finish : Type 0 where
  -- The loop has ended, the program has exited with 1, or it dials again.
  ended exited dialing : Finish

-- `(*count <= 0) || msg < *count`.
goes_on : ℤ → ℕ → Bool
goes_on (negsuc n) msg = true
goes_on (pos ℕ.zero) msg = true
goes_on (pos (ℕ.suc n)) msg = ltb msg (ℕ.suc n)

-- The numbers that are printed, each with whether the dial succeeded.
pub ping_from : ℤ → ℕ → List Dial → List (ℕ × Bool) × Finish
unfolding goes_on
ping_from count msg [] = ([], if goes_on count msg then dialing else ended)
ping_from count msg (d ∷ rest) =
    let (lines, finish) = ping_from count (msg + 1) rest in
    if goes_on count msg
    then elim d [
      | connected ↦ ((msg + 1, true) ∷ lines, finish)
      | temporary ↦ ((msg + 1, false) ∷ lines, finish)
      | permanent ↦ ((msg + 1, false) ∷ [], exited)
    ]
    else ([], ended)

unfoldable pub ping_port : ℤ → List Dial → List (ℕ × Bool) × Finish
unfolding ping_from
ping_port count dials = ping_from count 0 dials
