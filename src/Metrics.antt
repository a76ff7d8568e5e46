-- ===== src/Metrics.antt =====
-- chapter13/instrument/server.go: connStateMetrics, which counts the open connections, and helloHandler.
pub mod Open
pub mod Names
pub mod Fleet
pub mod Main
use networking_in_go.Prelude.{
  Bytes, codes, ℤ, pos, negsuc, none, some, [], ◌∷◌, true, false, refl, inl, inr, Option, List, ◌≡◌,
  Bool, ℕ, ◌++◌, ◌+◌, ◌-◌, ◌≤◌, ◌<◌, zero, suc, ap, sym, ◌∙◌,
}

-- `http.ConnState`.
pub data ConnState : Type 0 where
  state_new state_active state_idle state_hijacked state_closed : ConnState

-- The metrics; a gauge may go below 0.
pub record Metrics : Type 0 where
  pub requests : ℕ
  pub write_errors : ℕ
  pub durations : ℕ  -- how many were observed
  pub open_connections : ℤ

-- `Add(1)` and `Add(-1)` of a gauge.
up : ℤ → ℤ
up (pos n) = pos (n + 1)
up (negsuc ℕ.zero) = pos 0
up (negsuc (ℕ.suc n)) = negsuc n

down : ℤ → ℤ
down (pos ℕ.zero) = negsuc 0
down (pos (ℕ.suc n)) = pos n
down (negsuc n) = negsuc (n + 1)

unfoldable pub conn_state_metrics : ConnState → Metrics → Metrics
unfolding up down
conn_state_metrics state_new m = record m { open_connections = up m.open_connections }
conn_state_metrics state_closed m = record m { open_connections = down m.open_connections }
conn_state_metrics state_active m = m
conn_state_metrics state_idle m = m
conn_state_metrics state_hijacked m = m

-- Whether the response can be written; the duration is observed when the handler returns.
unfoldable pub hello_handler : Bool → Metrics → Metrics
hello_handler true m = record m { requests = m.requests + 1; durations = m.durations + 1 }
hello_handler false m = record m {
  requests = m.requests + 1;
  durations = m.durations + 1;
  write_errors = m.write_errors + 1;
}

-- What the server calls, the last call first: a connection changes its state, or a request is handled.
pub data Call : Type 0 where
  changed : ℕ → ConnState → Call
  handled : Bool → Call

unfoldable pub metrics : List Call → Metrics
unfolding conn_state_metrics hello_handler
metrics [] = record { requests = 0; write_errors = 0; durations = 0; open_connections = pos 0 }
metrics (changed c s ∷ calls) = conn_state_metrics s (metrics calls)
metrics (handled written ∷ calls) = hello_handler written (metrics calls)
