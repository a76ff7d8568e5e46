-- ===== src/Tls/Serving.antt =====
-- chapter11/server.go: with what configuration connections are accepted.
use networking_in_go.Tls.{
  Config, Server, load_failed, close_panic, with_config, lacks_certificate, close_ready, listen,
  certify, serve_tls, listen_ready, accept_with,
}
use networking_in_go.Prelude.{
  Bytes, Bool-cases, none, some, [], ◌∷◌, true, false, refl, inl, inr, Option, List, ◌≡◌, Bool, ◌≢◌,
}

-- A server that has come to accept connections: its configuration can name a certificate, and who waits
-- for it has been told.
pub record IsReady (s : Server) : Type 0 where
  pub config : Config
  pub set : s.tls_config ≡ some config
  pub certified : lacks_certificate config ≡ false
  pub told : s.ready ≢ some false

listen-IsReady :
    (s : Server) (o : Option Bool) (c : Config) (incoming : List (Option Bytes))
    → s.ready ≡ o
    → lacks_certificate c ≡ false
    → ((listen s c incoming).2 ≢ close_panic)
    → IsReady (listen s c incoming).0
unfolding listen close_ready listen_ready accept_with
listen-IsReady s none c incoming e h ne =
    rw e (record { config = c; set = refl; certified = h; told = λ f. cc })
listen-IsReady s (some false) c incoming e h ne =
    rw e (record { config = c; set = refl; certified = h; told = λ f. cc })
listen-IsReady s (some true) c incoming e h ne = absurd (ne (rw e refl))

certify-IsReady :
    (s : Server) (c : Config) (loaded : Option Bytes) (incoming : List (Option Bytes))
    → ((certify s c loaded incoming).2 ≢ load_failed)
    → ((certify s c loaded incoming).2 ≢ close_panic)
    → IsReady (certify s c loaded incoming).0
unfolding certify lacks_certificate
certify-IsReady s c none incoming h k = absurd (h refl)
certify-IsReady s c (some cert) incoming h k =
    listen-IsReady s s.ready (record c { certificates = cert ∷ [] }) incoming refl refl k

-- Unless the key pair cannot be loaded or `ready` was closed before, ServeTLS comes to accept
-- connections with a certificate or a function that gives one, and with `ready` closed, if there is
-- such a channel.
pub serve_tls-IsReady :
    (s : Server) (loaded : Option Bytes) (incoming : List (Option Bytes))
    → ((serve_tls s loaded incoming).2 ≢ load_failed)
    → ((serve_tls s loaded incoming).2 ≢ close_panic)
    → IsReady (serve_tls s loaded incoming).0
unfolding serve_tls
serve_tls-IsReady s loaded incoming h k =
    let c = with_config s.tls_config in
    elim (Bool-cases (lacks_certificate c)) [
      | inl e ↦ rw e (certify-IsReady s c loaded incoming (rw e at h) (rw e at k))
      | inr e ↦ rw e (listen-IsReady s s.ready c incoming refl e (rw e at k))
    ]
