-- ===== src/Chores/Network.antt =====
-- chapter12/server/server.go, and the connection that main of chapter12/client/client.go makes: the two
-- configurations of TLS, and what of crypto/tls they are for. Certificates and their checks are parameters.
-- Both sides know TLS 1.3.
pub mod Pinned
use networking_in_go.Chores.Client
use networking_in_go.Chores.Robot.{Rosie}
use networking_in_go.Chores.Store.{Listing}
use networking_in_go.Prelude.{
  Bytes, codes, equal, leb, Result, ok, err, if◌then◌else◌, none, some, [], ◌∷◌, true, false, refl,
  inl, inr, Option, List, ◌≡◌, Bool, ℕ, ◌++◌, ◌+◌, ◌-◌, ◌≤◌, ◌<◌, zero, suc, ap, sym, ◌∙◌, ◌||◌,
  ◌&&◌,
}

pub data Curve : Type 0 where
  p256 : Curve

pub record TlsConfig : Type 0 where
  pub certificates : List Bytes
  pub root_cas : List Bytes
  pub curve_preferences : List Curve
  pub min_version : ℕ
  pub prefer_server_cipher_suites : Bool
  pub next_protos : List Bytes

-- `tls.VersionTLS12` and the version of TLS 1.3.
abbrev version_tls12 : ℕ
version_tls12 = 0x0303

abbrev version_tls13 : ℕ
version_tls13 = 0x0304

unfoldable pub server_config : Bytes → TlsConfig
server_config cert = record {
  certificates = cert ∷ [];
  root_cas = [];
  curve_preferences = p256 ∷ [];
  min_version = version_tls12;
  prefer_server_cipher_suites = true;
  next_protos = codes "h2" ∷ [];
}

unfoldable pub client_config : List Bytes → TlsConfig
client_config pool = record {
  certificates = [];
  root_cas = pool;
  curve_preferences = p256 ∷ [];
  min_version = version_tls12;
  prefer_server_cipher_suites = true;
  next_protos = codes "h2" ∷ [];
}

has_curve : List Curve → Bool
has_curve [] = false
has_curve (p256 ∷ cs) = true

offers : Bytes → List Bytes → Bool
offers proto [] = false
offers proto (p ∷ ps) = equal p proto || offers proto ps

-- The server's first protocol that the client offers.
choose : List Bytes → List Bytes → Option Bytes
unfolding offers
choose [] offered = none
choose (p ∷ ps) offered = if offers p offered then some p else choose ps offered

-- `x509.Certificate.Verify`: the roots, the address that was dialled, whose host is the name to be verified, the
-- time, and the certificate of the server.
abbrev pub Verify : Type 0
Verify = List Bytes → Bytes → ℕ → Bytes → Bool

-- The handshake: the protocol that the two agree on, if the client can check the server's certificate.
unfoldable pub handshake : Verify → Bytes → ℕ → TlsConfig → TlsConfig → Option Bytes
unfolding has_curve choose
handshake verify addr now s c = elim s.certificates [
  | [] ↦ none
  | cert ∷ rest ↦
      if verify c.root_cas addr now cert
        && has_curve s.curve_preferences
        && has_curve c.curve_preferences
        && leb s.min_version version_tls13
        && leb c.min_version version_tls13
      then choose s.next_protos c.next_protos
      else none
]

-- The contents of the files that can be read.
abbrev pub Files : Type 0
Files = Bytes → Option Bytes

pub data ServerExit : Type 0 where
  no_key_pair not_listening : ServerExit

load_pair_of : (Bytes → Bytes → Option Bytes) → Option Bytes → Option Bytes → Option Bytes
load_pair_of pair (some c) (some k) = pair c k
load_pair_of pair (some c) none = none
load_pair_of pair none k = none

serving_with : Bool → Option Bytes → Result ServerExit TlsConfig
unfolding server_config
serving_with listens none = err no_key_pair
serving_with true (some cert) = ok (server_config cert)
serving_with false (some cert) = err not_listening

-- `main` of the server: with what configuration it serves. The first argument is `tls.X509KeyPair`.
unfoldable pub server_main :
    (Bytes → Bytes → Option Bytes) → Bool → Files → Bytes → Bytes → Result ServerExit TlsConfig
unfolding serving_with load_pair_of
server_main pair listens files cert_fn key_fn =
    serving_with listens (load_pair_of pair (files cert_fn) (files key_fn))

-- How `main` of the client ends: before any call, for want of an answer, or as its commands do.
pub data ClientExit : Type 0 where
  no_file not_added not_dialed unavailable : ClientExit
  commanded : Option Listing → ClientExit

-- The dial itself does not wait: the handshake comes with the first call. If it fails, so does every call, and
-- there is one, the last, on every way through `main`.
call_service : Option Bytes → List Bytes → Rosie → Rosie × ClientExit
call_service none args r = (r, unavailable)
call_service (some proto) args r = let (r', l) = Client.main args r in (r', commanded l)

dial_pool :
    Verify
    → Bytes
    → ℕ
    → TlsConfig
    → Bool
    → Option (List Bytes)
    → List Bytes
    → Rosie
    → Rosie × ClientExit
unfolding call_service handshake client_config
dial_pool verify addr now server dials none args r = (r, not_added)
dial_pool verify addr now server false (some pool) args r = (r, not_dialed)
dial_pool verify addr now server true (some pool) args r =
    call_service (handshake verify addr now server (client_config pool)) args r

pool_file : (Bytes → Option (List Bytes)) → Option Bytes → Option (Option (List Bytes))
pool_file append none = none
pool_file append (some b) = some (append b)

start_client :
    Verify
    → Bytes
    → ℕ
    → TlsConfig
    → Bool
    → Option (Option (List Bytes))
    → List Bytes
    → Rosie
    → Rosie × ClientExit
unfolding dial_pool
start_client verify addr now server dials none args r = (r, no_file)
start_client verify addr now server dials (some pool) args r =
    dial_pool verify addr now server dials pool args r

-- `main` of the client, against a server with this configuration. The parameters are the check of a
-- certificate, the address and the time, `AppendCertsFromPEM`, and whether `grpc.Dial` succeeds.
unfoldable pub client_main :
    Verify
    → Bytes
    → ℕ
    → (Bytes → Option (List Bytes))
    → TlsConfig
    → Bool
    → Option Bytes
    → List Bytes
    → Rosie
    → Rosie × ClientExit
unfolding start_client pool_file
client_main verify addr now append server dials ca args r =
    start_client verify addr now server dials (pool_file append ca) args r
