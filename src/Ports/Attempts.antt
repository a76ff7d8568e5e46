-- ===== src/Ports/Attempts.antt =====
-- chapter4/port.go: how many attempts there are.
use networking_in_go.Ports.{
  Dial, connected, temporary, permanent, ended, goes_on, ping_from, ping_port,
}
use networking_in_go.Prelude.{pos, arith, All, length, [], ◌∷◌, List, ◌≡◌, ℕ, ◌+◌, ◌-◌, ◌≤◌}

abbrev pub Passes : Dial → Type 0
Passes connected = Unit
Passes temporary = Unit
Passes permanent = ⊥

ping_from-ended :
    (n : ℕ) (dials : List Dial) (msg : ℕ)
    → All Passes dials
    → msg ≤ ℕ.suc n
    → ℕ.suc n - msg ≤ length dials
    → (length (ping_from (pos (ℕ.suc n)) msg dials).0 ≡ ℕ.suc n - msg)
      × ((ping_from (pos (ℕ.suc n)) msg dials).1 ≡ ended)
unfolding ping_from goes_on
ping_from-ended n [] msg a h k = ground arith
ping_from-ended n (connected ∷ rest) msg a h k =
    ground (arith, ping_from-ended n rest (msg + 1) a.1)
ping_from-ended n (temporary ∷ rest) msg a h k =
    ground (arith, ping_from-ended n rest (msg + 1) a.1)
ping_from-ended n (permanent ∷ rest) msg a h k = absurd a.0

-- For a positive count there are exactly that many attempts, as long as no error is permanent, and then
-- the program ends.
pub ping_port-ended :
    (n : ℕ) (dials : List Dial)
    → All Passes dials
    → ℕ.suc n ≤ length dials
    → (length (ping_port (pos (ℕ.suc n)) dials).0 ≡ ℕ.suc n)
      × ((ping_port (pos (ℕ.suc n)) dials).1 ≡ ended)
unfolding ping_port
ping_port-ended n dials a h =
    let (l, e) = ping_from-ended n dials 0 a (omega arith) (omega arith) in (omega (arith, l), e)
