-- ===== src/Metrics/Open.antt =====
-- chapter13/instrument/server.go: the gauge against the connections that are open.
use networking_in_go.Metrics.{
  state_new, state_active, state_idle, state_hijacked, state_closed, up, down, conn_state_metrics,
  hello_handler, Call, changed, handled, metrics, ℕ,
}
use networking_in_go.Prelude.{
  ℤ, pos, length, length-append, arith, [], ◌∷◌, true, false, refl, List, ◌≡◌, Bool, ◌++◌, ◌+◌, ap,
  ◌∙◌,
}

-- The calls that an HTTP server makes, the last one first, and the connections that are open after them: a
-- connection is new, then active and idle by turns, and last closed or hijacked.
pub data History : List Call → List ℕ → Type 0 where
  start : History [] []
  opened :
      {calls : List Call} {open_ones : List ℕ}
      → (c : ℕ) → History calls open_ones
      → History (changed c state_new ∷ calls) (c ∷ open_ones)
  active :
      {calls : List Call} {open_ones : List ℕ}
      → (c : ℕ) → History calls open_ones
      → History (changed c state_active ∷ calls) open_ones
  idle :
      {calls : List Call} {open_ones : List ℕ}
      → (c : ℕ) → History calls open_ones
      → History (changed c state_idle ∷ calls) open_ones
  served :
      {calls : List Call} {open_ones : List ℕ}
      → (written : Bool) → History calls open_ones
      → History (handled written ∷ calls) open_ones
  closed :
      {calls : List Call}
      → (before after : List ℕ) → (c : ℕ) → History calls (before ++ c ∷ after)
      → History (changed c state_closed ∷ calls) (before ++ after)
  hijacked :
      {calls : List Call}
      → (before after : List ℕ) → (c : ℕ) → History calls (before ++ c ∷ after)
      → History (changed c state_hijacked ∷ calls) (before ++ after)

pub hijacks : List Call → ℕ
hijacks [] = 0
hijacks (changed c state_hijacked ∷ calls) = hijacks calls + 1
hijacks (changed c state_new ∷ calls) = hijacks calls
hijacks (changed c state_active ∷ calls) = hijacks calls
hijacks (changed c state_idle ∷ calls) = hijacks calls
hijacks (changed c state_closed ∷ calls) = hijacks calls
hijacks (handled written ∷ calls) = hijacks calls

length-remove :
    (before after : List ℕ) (c : ℕ)
    → length (before ++ c ∷ after) ≡ ℕ.suc (length (before ++ after))
length-remove before after c =
    omega (arith, length-append before (c ∷ after), length-append before after)

up_pos : (n m : ℕ) (z : ℤ) → z ≡ pos n → m ≡ n + 1 → up z ≡ pos m
unfolding up
up_pos n m z e f = rw (e, f) refl

down_pos : (n m : ℕ) (z : ℤ) → z ≡ pos n → n ≡ ℕ.suc m → down z ≡ pos m
unfolding down
down_pos n m z e f = rw (e, f) refl

-- Whatever the server does, the gauge shows the number of open connections and of those that were hijacked:
-- the number of open connections, for a server of which no handler hijacks one.
pub metrics_open :
    {calls : List Call} {open_ones : List ℕ}
    → History calls open_ones
    → (metrics calls).open_connections ≡ pos (length open_ones + hijacks calls)
unfolding metrics conn_state_metrics hello_handler hijacks
metrics_open start = refl
metrics_open (opened {calls} {open_ones} c h) =
    up_pos (length open_ones + hijacks calls) _ (metrics calls).open_connections (metrics_open h)
      (omega arith)
metrics_open (active c h) = metrics_open h
metrics_open (idle c h) = metrics_open h
metrics_open (served true h) = metrics_open h
metrics_open (served false h) = metrics_open h
metrics_open (closed {calls} before after c h) =
    down_pos (length (before ++ c ∷ after) + hijacks calls) _ (metrics calls).open_connections
      (metrics_open h) (omega (arith, length-remove before after c))
metrics_open (hijacked {calls} before after c h) =
    let e : length (before ++ c ∷ after) + hijacks calls
        ≡ length (before ++ after) + (hijacks calls + 1) =
      omega (arith, length-remove before after c) in
    metrics_open h ∙ ap pos e
