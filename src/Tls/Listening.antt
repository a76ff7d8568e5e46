-- ===== src/Tls/Listening.antt =====
-- chapter11/server.go: ListenAndServeTLS, Ready, and a server that is started again.
use networking_in_go.Tls.{
  Config, Server, Stop, load_failed, close_panic, new_tls_server, serve_tls, accept_all,
  listen_ready, certify, listen, with_config, accept_with, close_ready, lacks_certificate,
}
use networking_in_go.Prelude.{
  ℕ, Bytes, codes, equal, if◌then◌else◌, none, some, [], ◌∷◌, true, false, refl, inl, inr, Option,
  List, ◌≡◌, Bool, ap, ◌∙◌, ◌≢◌, ◌⊎◌, Bool-cases,
}

-- What net.Listen decides, and then ServeTLS.
pub data Exit : Type 0 where
  not_bound : Bytes → Exit
  stopped : List Bytes → Stop → Exit

-- `if s.addr == "" { s.addr = "localhost:443" }`.
unfoldable pub address_or : Bytes → Bytes
address_or addr = if equal addr [] then codes "localhost:443" else addr

-- ServeTLS has a copy of the server: its channel is shared, and so is a configuration that the server had.
kept_config : Option Config → Option Config → Option Config
kept_config none after = none
kept_config (some c) after = after

unfoldable pub caller_of : Server → Server → Server
unfolding kept_config
caller_of s after = record s {
  ready = after.ready;
  tls_config = kept_config s.tls_config after.tls_config;
}

after_serve : Server → Server × List Bytes × Stop → Server × Exit
unfolding caller_of
after_serve s (after, conns, stop) = (caller_of s after, stopped conns stop)

bind : Bool → Server → Option Bytes → List (Option Bytes) → Server × Exit
unfolding after_serve
bind false s loaded incoming = (s, not_bound s.addr)
bind true s loaded incoming = after_serve s (serve_tls s loaded incoming)

unfoldable pub with_address : Server → Server
unfolding address_or
with_address s = record s { addr = address_or s.addr }

-- Whether net.Listen succeeds at an address, the key pair, and the connections; the end of the context closes the
-- listener, so that the next Accept fails.
unfoldable pub listen_and_serve_tls :
    (Bytes → Bool) → Server → Option Bytes → List (Option Bytes) → Server × Exit
unfolding bind with_address
listen_and_serve_tls bound s loaded incoming =
    let s' = with_address s in bind (bound s'.addr) s' loaded incoming

-- Whether Ready returns at once.
unfoldable pub ready : Server → Bool
ready s = elim s.ready [ none ↦ true | some told ↦ told ]

-- The server has not come to accept connections.
abbrev pub HasFailed : Exit → Type 0
HasFailed (not_bound addr) = Unit
HasFailed (stopped conns stop) = stop ≡ load_failed

accept_all_loads : (incoming : List (Option Bytes)) → (accept_all incoming).1 ≢ load_failed
unfolding accept_all
accept_all_loads [] = λ e. cc
accept_all_loads (none ∷ rest) = λ e. cc
accept_all_loads (some conn ∷ rest) = accept_all_loads rest

listen_loads :
    (s : Server) (c : Config) (o : Option (Option Bool)) (incoming : List (Option Bytes))
    → (listen_ready s c o incoming).2 ≢ load_failed
unfolding listen_ready accept_with
listen_loads s c none incoming = λ e. cc
listen_loads s c (some r) incoming = accept_all_loads incoming

certify_failed :
    (s : Server) (c : Config) (loaded : Option Bytes) (incoming : List (Option Bytes))
    → (certify s c loaded incoming).2 ≡ load_failed
    → (certify s c loaded incoming).0 ≡ record s { tls_config = some c }
unfolding certify listen
certify_failed s c none incoming h = refl
certify_failed s c (some cert) incoming h =
    absurd (listen_loads s _ (close_ready s.ready) incoming h)

serve_failed :
    (s : Server) (loaded : Option Bytes) (incoming : List (Option Bytes))
    → (serve_tls s loaded incoming).2 ≡ load_failed
    → (serve_tls s loaded incoming).0 ≡ record s { tls_config = some (with_config s.tls_config) }
unfolding serve_tls listen
serve_failed s loaded incoming h =
    let c = with_config s.tls_config in
    elim (Bool-cases (lacks_certificate c)) [
      | inl e ↦ rw e (certify_failed s c loaded incoming (rw e at h))
      | inr e ↦ absurd (listen_loads s c (close_ready s.ready) incoming (rw e at h))
    ]

kept_same : (o : Option Config) → kept_config o (some (with_config o)) ≡ o
unfolding kept_config with_config
kept_same none = refl
kept_same (some c) = refl

bind-HasFailed :
    (bound : Bool) (s : Server) (loaded : Option Bytes) (incoming : List (Option Bytes))
    → HasFailed (bind bound s loaded incoming).1
    → (bind bound s loaded incoming).0 ≡ s
unfolding bind after_serve caller_of
bind-HasFailed false s loaded incoming h = refl
bind-HasFailed true s loaded incoming h =
    ap (caller_of s) (serve_failed s loaded incoming h)
    ∙ ap (λ o. record s { tls_config = o }) (kept_same s.tls_config)

-- A server that could not be started, for want of its address or its key pair, is as it was, but for an
-- empty address, which has become the default: it can be started again.
pub listen_and_serve_tls-HasFailed :
    (bound : Bytes → Bool) (s : Server) (loaded : Option Bytes) (incoming : List (Option Bytes))
    → HasFailed (listen_and_serve_tls bound s loaded incoming).1
    → (listen_and_serve_tls bound s loaded incoming).0 ≡ with_address s
unfolding listen_and_serve_tls
listen_and_serve_tls-HasFailed bound s loaded incoming h =
    let s' = with_address s in bind-HasFailed (bound s'.addr) s' loaded incoming h

-- The server has closed its channel.
abbrev Told : Server → Type 0
Told s = s.ready ≡ some true

certify-Told :
    (s : Server) (c : Config) (loaded : Option Bytes) (incoming : List (Option Bytes))
    → s.ready ≡ some false
    → let r = certify s c loaded incoming in r.2 ≢ load_failed → Told r.0
unfolding certify listen listen_ready close_ready accept_with
certify-Told s c none incoming e ne = absurd (ne refl)
certify-Told s c (some cert) incoming e ne = rw e refl

serve_tls-Told :
    (s : Server) (loaded : Option Bytes) (incoming : List (Option Bytes))
    → s.ready ≡ some false
    → (serve_tls s loaded incoming).2 ≢ load_failed
    → Told (serve_tls s loaded incoming).0
unfolding serve_tls listen listen_ready close_ready accept_with
serve_tls-Told s loaded incoming open_still ne =
    elim (Bool-cases (lacks_certificate (with_config s.tls_config))) [
      | inl e ↦
          rw e (certify-Told s (with_config s.tls_config) loaded incoming open_still (rw e at ne))
      | inr e ↦ rw (e, open_still) refl
    ]

-- No connection is accepted: closing the channel again panics, or the key pair cannot be loaded.
abbrev pub AcceptsNone : Exit → Type 0
AcceptsNone exit = (exit ≡ stopped [] close_panic) ⊎ (exit ≡ stopped [] load_failed)

listen_panics :
    (s : Server) (c : Config) (incoming : List (Option Bytes))
    → Told s
    → (after_serve s (listen s c incoming)).1 ≡ stopped [] close_panic
unfolding listen listen_ready close_ready after_serve
listen_panics s c incoming h = rw h refl

certify_stops :
    (s : Server) (c : Config) (loaded : Option Bytes) (incoming : List (Option Bytes))
    → Told s
    → AcceptsNone (after_serve s (certify s c loaded incoming)).1
unfolding certify after_serve
certify_stops s c none incoming h = inr refl
certify_stops s c (some cert) incoming h = inl (listen_panics s _ incoming h)

second_stops :
    (s : Server) (loaded : Option Bytes) (incoming : List (Option Bytes))
    → Told s
    → AcceptsNone (after_serve s (serve_tls s loaded incoming)).1
unfolding serve_tls
second_stops s loaded incoming h =
    let c = with_config s.tls_config in
    elim (Bool-cases (lacks_certificate c)) [
      | inl e ↦ rw e (certify_stops s c loaded incoming h)
      | inr e ↦ rw e (inl (listen_panics s c incoming h))
    ]

bind-Told :
    (bound : Bool) (s : Server) (loaded : Option Bytes) (incoming : List (Option Bytes))
    → s.ready ≡ some false
    → ¬ HasFailed (bind bound s loaded incoming).1
    → Told (bind bound s loaded incoming).0
unfolding bind after_serve caller_of
bind-Told false s loaded incoming e ne = absurd (ne tt)
bind-Told true s loaded incoming e ne = serve_tls-Told s loaded incoming e ne

bind-AcceptsNone :
    (bound : Bool) (s : Server) (loaded : Option Bytes) (incoming : List (Option Bytes))
    → Told s
    → AcceptsNone (bind bound s loaded incoming).1
      ⊎ ((bind bound s loaded incoming).1 ≡ not_bound s.addr)
unfolding bind
bind-AcceptsNone false s loaded incoming h = inr refl
bind-AcceptsNone true s loaded incoming h = inl (second_stops s loaded incoming h)

ready-Told : (s : Server) → Told s → ready s ≡ true
unfolding ready
ready-Told s h = rw h refl

-- A server from NewTLSServer that has come to accept connections cannot be started again, though Ready
-- returns: the second start accepts no connection. It panics, unless the address or the key pair fails.
pub listen_and_serve_tls-AcceptsNone :
    (bound bound' : Bytes → Bool) (address : Bytes) (max_idle : ℕ) (c : Option Config)
    (loaded loaded' : Option Bytes) (incoming incoming' : List (Option Bytes))
    → let (s, exit) =
        listen_and_serve_tls bound (new_tls_server address max_idle c) loaded incoming in
      ¬ HasFailed exit
      → (ready s ≡ true)
        × (AcceptsNone (listen_and_serve_tls bound' s loaded' incoming').1
            ⊎ ((listen_and_serve_tls bound' s loaded' incoming').1 ≡ not_bound (address_or s.addr)))
unfolding listen_and_serve_tls ready new_tls_server with_address
listen_and_serve_tls-AcceptsNone bound bound' address max_idle c loaded loaded' incoming incoming'
      ne =
    let (s, exit) =
      listen_and_serve_tls bound (new_tls_server address max_idle c) loaded incoming in
    let told : Told s = bind-Told _ _ loaded incoming refl ne in
    (ready-Told s told, bind-AcceptsNone _ _ loaded' incoming' told)
