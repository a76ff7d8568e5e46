-- ===== src/Chores/Network/Pinned.antt =====
-- chapter11/cert.go with chapter12/server/server.go and chapter12/client/client.go: the certificate of the
-- server, pinned by the client.
use networking_in_go.Certificates
use networking_in_go.Certificates.{Library, System, Flags, Files, Template, template, validity}
use networking_in_go.Certificates.Valid.{IsGood, second, template-IsGood}
use networking_in_go.Go.Fields.{split}
use networking_in_go.Certificates.Written.{main-Issued}
use networking_in_go.Chores.Client
use networking_in_go.Chores.Robot.{Rosie}
use networking_in_go.Chores.Network.{
  Verify, TlsConfig, server_config, client_config, handshake, server_main, client_main, commanded,
  serving_with, load_pair_of, start_client, pool_file, dial_pool, call_service,
}
use networking_in_go.Prelude.{
  Bytes, codes, equal, ok, some, [], ◌∷◌, true, false, refl, Option, List, ◌≡◌, ap, ◌∙◌, ap₂, Among,
  ◌≤◌, ◌+◌, ℕ,
}

handshake_h2 :
    (verify : Verify) (addr : Bytes) (now : ℕ) (cert : Bytes) (pool : List Bytes)
    → verify pool addr now cert ≡ true
    → handshake verify addr now (server_config cert) (client_config pool) ≡ some (codes "h2")
unfolding handshake server_config client_config equal
handshake_h2 verify addr now cert pool h = rw h refl

server_main-load_pair_of :
    (pair : Bytes → Bytes → Option Bytes) (files : Files) (c k : Bytes) {b b' cert : Bytes}
    → files c ≡ some b
    → files k ≡ some b'
    → pair b b' ≡ some cert
    → server_main pair true files c k ≡ ok (server_config cert)
unfolding server_main
server_main-load_pair_of pair files c k e f g =
    ap₂ (λ o o'. serving_with true (load_pair_of pair o o')) e f ∙ ap (serving_with true) g

client_main-call_service :
    (verify : Verify) (addr : Bytes) (now : ℕ) (append : Bytes → Option (List Bytes))
    (cert b : Bytes) (o : Option Bytes) (args : List Bytes) (r : Rosie)
    → o ≡ some b
    → append b ≡ some (cert ∷ [])
    → verify (cert ∷ []) addr now cert ≡ true
    → client_main verify addr now append (server_config cert) true o args r
      ≡ ((Client.main args r).0, commanded (Client.main args r).1)
unfolding client_main
client_main-call_service verify addr now append cert b o args r e f g =
    ap (λ z. start_client verify addr now (server_config cert) true (pool_file append z) args r) e
    ∙ ap (λ z. dial_pool verify addr now (server_config cert) true z args r) f
    ∙ ap (λ z. call_service z args r) (handshake_h2 verify addr now cert (cert ∷ []) g)

-- What is documented of crypto/x509 and encoding/pem for a certificate that is its own authority: it is read
-- back with its key and into a pool, and where it is the pool it is accepted of a server, dialled at an address
-- with this host, if it is for the host and in its time.
pub record IsX509 (lib : Library) (pair : Bytes → Bytes → Option Bytes) (verify : Verify)
    (host addr : Bytes) : Type 0 where
  pub reads :
      (t : Template) (priv der m : Bytes)
      → lib.create_certificate t t priv ≡ some der
      → lib.marshal_key priv ≡ some m
      → pair (lib.pem (codes "CERTIFICATE") der) (lib.pem (codes "EC PRIVATE KEY") m) ≡ some der
  pub appends :
      (t : Template) (priv der : Bytes)
      → lib.create_certificate t t priv ≡ some der
      → lib.append_certs (lib.pem (codes "CERTIFICATE") der) ≡ some (der ∷ [])
  pub accepts :
      (t : Template) (priv der : Bytes) (now : ℕ)
      → lib.create_certificate t t priv ≡ some der
      → IsGood lib.parse_ip host now t
      → verify (der ∷ []) addr now der ≡ true

-- With the files that the program of chapter11 has written, of which the server reads both and the client
-- the certificate, the server starts, and the client does over its connection what its commands do on the
-- service, if the host that it dials is among those of the flag and the certificate has begun and lasts for
-- another second. The libraries treat a certificate that is its own authority as documented.
pub client_main-main :
    (lib : Library) (sys : System) (flags : Flags) (files : Files)
    (pair : Bytes → Bytes → Option Bytes) (verify : Verify) (host addr : Bytes) (now : ℕ)
    (args : List Bytes) (r : Rosie)
    → IsX509 lib pair verify host addr
    → equal flags.cert_fn flags.key_fn ≡ false
    → (Certificates.main lib sys flags files).1 ≡ ok tt
    → Among host (split b',' flags.host)
    → lib.now ≤ now
    → now + second ≤ lib.now + validity
    → let made = (Certificates.main lib sys flags files).0 in
      (server : TlsConfig) × (server_main pair true made flags.cert_fn flags.key_fn ≡ ok server)
      × (client_main verify addr now lib.append_certs server true (made flags.cert_fn) args r
          ≡ ((Client.main args r).0, commanded (Client.main args r).1))
client_main-main lib sys flags files pair verify host addr now args r x509 ne done listed begun
      over =
    let made = (Certificates.main lib sys flags files).0 in
    let i = main-Issued lib sys flags files ne done in
    let t = template lib flags i.serial in
    let good = template-IsGood lib flags i.serial host now listed begun over in
    (
      server_config i.der,
      server_main-load_pair_of pair made flags.cert_fn flags.key_fn i.cert_file i.key_file
          (x509.reads t i.priv i.der i.marshalled i.signed.1 i.key),
      client_main-call_service verify addr now lib.append_certs i.der _ (made flags.cert_fn) args r
          i.cert_file (x509.appends t i.priv i.der i.signed.1)
          (x509.accepts t i.priv i.der now i.signed.1 good),
    )
