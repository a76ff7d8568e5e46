-- ===== src/Tls.antt =====
-- chapter11/server.go: Server and ServeTLS, up to the connections, whose loop is in Echo. Reading the key
-- pair and accepting are what the files and the network do.
pub mod Serving
pub mod Listening
use networking_in_go.Prelude.{
  Bytes, if◌then◌else◌, none, some, ◌∷◌, true, false, refl, inl, inr, Option, List, ◌≡◌, Bool, ℕ,
  ◌++◌, ◌+◌, ◌-◌, ◌≤◌, ◌<◌, zero, suc, ap, sym, ◌∙◌, [], not,
}

-- The parts of a `tls.Config` that the server sets or looks at.
pub record Config : Type 0 where
  pub certificates : List Bytes
  pub get_certificate : Bool  -- whether there is the function
  pub min_version : ℕ
  pub curve_preferences : List ℕ
  pub prefer_server_cipher_suites : Bool

-- `tls.VersionTLS12`.
abbrev pub version_tls12 : ℕ
version_tls12 = 0x0303

-- `tls.CurveP256`.
abbrev pub curve_p256 : ℕ
curve_p256 = 23

-- ServeTLS works on a copy of the server, which is the one below; the channel is shared.
-- A channel, once it is made, is open or closed; a nil one is `none`.
pub record Server : Type 0 where
  pub ready : Option Bool  -- whether it is closed
  pub addr : Bytes
  pub max_idle : ℕ  -- nanoseconds
  pub tls_config : Option Config

pub data Stop : Type 0 where
  load_failed accept_failed close_panic accepting : Stop

-- The context is the end of the list of connections.
unfoldable pub new_tls_server : Bytes → ℕ → Option Config → Server
new_tls_server address max_idle c = record {
  ready = some false;
  addr = address;
  max_idle = max_idle;
  tls_config = c;
}

with_config : Option Config → Config
with_config none = record {
  certificates = [];
  get_certificate = false;
  min_version = version_tls12;
  curve_preferences = curve_p256 ∷ [];
  prefer_server_cipher_suites = true;
}
with_config (some c) = c

pub lacks_certificate : Config → Bool
lacks_certificate c = elim c.certificates [ [] ↦ not c.get_certificate | x ∷ xs ↦ false ]

-- `if s.ready != nil { close(s.ready) }`: none if closing it panics.
close_ready : Option Bool → Option (Option Bool)
close_ready none = some none
close_ready (some false) = some (some true)
close_ready (some true) = none

-- The loop over `Accept`: the connections that are handed to goroutines.
unfoldable pub accept_all : List (Option Bytes) → List Bytes × Stop
accept_all [] = ([], accepting)
accept_all (none ∷ rest) = ([], accept_failed)
accept_all (some conn ∷ rest) = let (conns, stop) = accept_all rest in (conn ∷ conns, stop)

accept_with : Server → List (Option Bytes) → Server × List Bytes × Stop
unfolding accept_all
accept_with s incoming = let (conns, stop) = accept_all incoming in (s, conns, stop)

listen_ready :
    Server → Config → Option (Option Bool) → List (Option Bytes) → Server × List Bytes × Stop
unfolding accept_with
listen_ready s c none incoming = (record s { tls_config = some c }, [], close_panic)
listen_ready s c (some r) incoming =
    accept_with (record s { ready = r; tls_config = some c }) incoming

listen : Server → Config → List (Option Bytes) → Server × List Bytes × Stop
unfolding close_ready listen_ready
listen s c incoming = listen_ready s c (close_ready s.ready) incoming

certify : Server → Config → Option Bytes → List (Option Bytes) → Server × List Bytes × Stop
unfolding listen
certify s c none incoming = (record s { tls_config = some c }, [], load_failed)
certify s c (some cert) incoming = listen s (record c { certificates = cert ∷ [] }) incoming

-- The second argument is what `tls.LoadX509KeyPair` gives.
unfoldable pub serve_tls : Server → Option Bytes → List (Option Bytes) → Server × List Bytes × Stop
unfolding certify lacks_certificate with_config
serve_tls s loaded incoming =
    let c = with_config s.tls_config in
    if lacks_certificate c then certify s c loaded incoming else listen s c incoming
