-- ===== src/Shutdown.antt =====
-- The end of a server by a signal: `run` of chapter9/push.go, whose two goroutines are steps of one state,
-- and `run` of chapter10/backend.go. The log is left out.
pub mod Graceful
pub mod Backend
use networking_in_go.Prelude.{
  Bytes, equal, none, some, [], ◌∷◌, true, false, refl, inl, inr, Option, List, ◌≡◌, Bool, ◌++◌,
  ◌+◌, ◌-◌, ◌≤◌, ◌<◌, zero, suc, ap, sym, ◌∙◌, ℕ, not, ◌&&◌, ◌≢◌,
}

-- What ListenAndServe returns: http.ErrServerClosed, or another error.
pub data ServeError : Type 0 where
  server_closed : ServeError
  other_error : Bytes → ServeError

-- `if err == http.ErrServerClosed { err = nil }`.
unfoldable pub settle : ServeError → Option Bytes
settle server_closed = none
settle (other_error e) = some e

-- The goroutine that calls `run`: the server serves, `<-done` waits, or `run` has returned.
pub data Caller : Type 0 where
  serving : Caller
  waiting returned : Option Bytes → Caller

-- The goroutine that waits for a signal, then for Shutdown, and ends with `close(done)`.
pub data Watcher : Type 0 where
  watching shutting finished : Watcher

pub record State : Type 0 where
  pub caller : Caller
  pub watcher : Watcher
  pub tls : Bool  -- whether TLS is enabled
  pub connections : ℕ  -- those that are open

unfoldable pub tls_enabled : Bytes → Bytes → Bool
tls_enabled cert pkey = not (equal cert []) && not (equal pkey [])

unfoldable pub initial : Bytes → Bytes → State
unfolding tls_enabled
initial cert pkey = record {
  caller = serving;
  watcher = watching;
  tls = tls_enabled cert pkey;
  connections = 0;
}

-- Once Shutdown is called, the server takes no connection, ListenAndServe returns http.ErrServerClosed,
-- and Shutdown returns when no connection is left, an error of the listener's put by. ListenAndServe, and
-- ListenAndServeTLS alike, may fail at any time.
pub data Step (s : State) : State → Type 0 where
  connects :
      s.caller ≡ serving
      → s.watcher ≡ watching
      → Step s (record s { connections = s.connections + 1 })
  disconnects : {n : ℕ} → s.connections ≡ suc n → Step s (record s { connections = n })
  interrupted : s.watcher ≡ watching → Step s (record s { watcher = shutting })
  closed :
      s.caller ≡ serving
      → s.watcher ≢ watching
      → Step s (record s { caller = waiting (settle server_closed) })
  failed :
      (e : Bytes)
      → s.caller ≡ serving
      → Step s (record s { caller = waiting (settle (other_error e)) })
  shut_down : s.watcher ≡ shutting → s.connections ≡ 0 → Step s (record s { watcher = finished })
  returns :
      {r : Option Bytes}
      → s.caller ≡ waiting r
      → s.watcher ≡ finished
      → Step s (record s { caller = returned r })

pub data Reach (cert pkey : Bytes) : State → Type 0 where
  start : Reach cert pkey (initial cert pkey)
  later : {s t : State} → Reach cert pkey s → Step s t → Reach cert pkey t
