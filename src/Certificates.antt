-- ===== src/Certificates.antt =====
-- chapter11/cert.go: the program that makes a certificate for a client, and caCertPool. What crypto, net and
-- encoding/pem compute, and which calls of the system fail, are parameters; the log is left out.
pub mod Hosts
pub mod Written
pub mod Ends
pub mod Valid
use networking_in_go.Go.Fields.{split}
use networking_in_go.Prelude.{
  Bytes, codes, equal, if◌then◌else◌, length, take, ltb, Result, ok, err, ◌>>=◌, none, some, [],
  ◌∷◌, true, false, refl, inl, inr, Option, List, ◌≡◌, Bool, ℕ, ◌++◌, ◌+◌, ◌-◌, ◌≤◌, ◌<◌, zero, suc,
  ap, sym, ◌∙◌, ◌*◌,
}

pub data KeyUsage : Type 0 where
  key_encipherment digital_signature cert_sign : KeyUsage

pub data ExtKeyUsage : Type 0 where
  server_auth client_auth : ExtKeyUsage

-- The fields of the x509.Certificate that are set. A time is in nanoseconds, an address as ParseIP gives it.
pub record Template : Type 0 where
  pub serial_number : ℕ
  pub organization : List Bytes
  pub not_before : ℕ
  pub not_after : ℕ
  pub key_usage : List KeyUsage
  pub ext_key_usage : List ExtKeyUsage
  pub basic_constraints_valid : Bool
  pub is_ca : Bool
  pub ip_addresses : List Bytes
  pub dns_names : List Bytes

-- The flags.
pub record Flags : Type 0 where
  pub host : Bytes
  pub cert_fn : Bytes
  pub key_fn : Bytes
  pub org : Bytes

-- What the libraries give; `none` is an error.
pub record Library : Type 0 where
  pub serial : Option ℕ  -- rand.Int below 2 ^ 128
  pub now : ℕ
  pub parse_ip : Bytes → Option Bytes
  pub generate_key : Option Bytes
  pub create_certificate : Template → Template → Bytes → Option Bytes
  pub marshal_key : Bytes → Option Bytes
  pub pem : Bytes → Bytes → Bytes  -- of a type and the bytes of the block
  pub append_certs : Bytes → Option (List Bytes)  -- the certificates, if there was one

-- Which files can be opened and closed, and how many bytes each takes.
pub record System : Type 0 where
  pub opens : Bytes → Bool
  pub closes : Bytes → Bool
  pub room : Bytes → ℕ

-- The contents of the files that exist.
abbrev pub Files : Type 0
Files = Bytes → Option Bytes

pub data Fault : Type 0 where
  no_serial no_key no_certificate not_marshalled : Fault
  not_opened not_encoded not_closed : Bytes → Fault

-- 10 * 356 * 24 * time.Hour.
abbrev pub validity : ℕ
validity = 10 * 356 * 24 * 3_600_000_000_000

add_host : Bytes → Option Bytes → Template → Template
add_host h (some ip) t = record t { ip_addresses = t.ip_addresses ++ ip ∷ [] }
add_host h none t = record t { dns_names = t.dns_names ++ h ∷ [] }

-- The loop over the hosts.
unfoldable pub add_hosts : (Bytes → Option Bytes) → List Bytes → Template → Template
unfolding add_host
add_hosts parse_ip [] t = t
add_hosts parse_ip (h ∷ hs) t = add_hosts parse_ip hs (add_host h (parse_ip h) t)

unfoldable pub template : Library → Flags → ℕ → Template
unfolding add_hosts
template lib flags serial = add_hosts lib.parse_ip (split b',' flags.host) (record {
  serial_number = serial;
  organization = flags.org ∷ [];
  not_before = lib.now;
  not_after = lib.now + validity;
  key_usage = key_encipherment ∷ digital_signature ∷ cert_sign ∷ [];
  ext_key_usage = server_auth ∷ client_auth ∷ [];
  basic_constraints_valid = true;
  is_ca = true;
  ip_addresses = [];
  dns_names = [];
})

unfoldable pub or_fault : {A : Type 0} → Fault → Option A → Result Fault A
or_fault e none = err e
or_fault e (some a) = ok a

-- The private key and the certificate.
unfoldable pub issue : Library → Flags → Result Fault (Bytes × Bytes)
unfolding or_fault template
issue lib flags = do
  serial ← or_fault no_serial lib.serial
  let t = template lib flags serial
  priv ← or_fault no_key lib.generate_key
  der ← or_fault no_certificate (lib.create_certificate t t priv)
  ok (priv, der)

unfoldable pub put : Bytes → Bytes → Files → Files
put name b files other = if equal other name then some b else files other

-- pem.Encode and Close, of a file that was opened and is empty.
unfoldable pub fill : System → Bytes → Bytes → Files → Files × Result Fault (Unit {0})
unfolding put
fill sys name b files = (
  put name (take (sys.room name) b) files,
  if ltb (sys.room name) (length b)
      then err (not_encoded name)
      else if sys.closes name
      then ok tt
      else err (not_closed name),
)

-- The certificate's file.
unfoldable pub write_cert :
    Library → System → Bytes → Bytes → Files → Files × Result Fault (Unit {0})
unfolding fill
write_cert lib sys name der files =
    let filled = fill sys name (lib.pem (codes "CERTIFICATE") der) files in
    if sys.opens name then filled else (files, err (not_opened name))

-- The private key is marshalled once its file was opened, which empties it.
fill_key : Library → System → Bytes → Option Bytes → Files → Files × Result Fault (Unit {0})
unfolding fill
fill_key lib sys name none files = (files, err not_marshalled)
fill_key lib sys name (some b) files = fill sys name (lib.pem (codes "EC PRIVATE KEY") b) files

unfoldable pub write_key :
    Library → System → Bytes → Bytes → Files → Files × Result Fault (Unit {0})
unfolding fill_key put
write_key lib sys name priv files =
    let filled = fill_key lib sys name (lib.marshal_key priv) (put name [] files) in
    if sys.opens name then filled else (files, err (not_opened name))

key_after :
    Library
    → System
    → Flags
    → Bytes
    → Files × Result Fault (Unit {0})
    → Files × Result Fault (Unit {0})
unfolding write_key
key_after lib sys flags priv (files, err e) = (files, err e)
key_after lib sys flags priv (files, ok u) = write_key lib sys flags.key_fn priv files

write_both :
    Library
    → System
    → Flags
    → Result Fault (Bytes × Bytes)
    → Files
    → Files × Result Fault (Unit {0})
unfolding key_after write_cert
write_both lib sys flags (err e) files = (files, err e)
write_both lib sys flags (ok (priv, der)) files =
    key_after lib sys flags priv (write_cert lib sys flags.cert_fn der files)

unfoldable pub main : Library → System → Flags → Files → Files × Result Fault (Unit {0})
unfolding write_both issue
main lib sys flags files = write_both lib sys flags (issue lib flags) files

pub data PoolFault : Type 0 where
  not_read not_added : PoolFault

pool_of : Option (List Bytes) → Result PoolFault (List Bytes)
pool_of none = err not_added
pool_of (some certs) = ok certs

pool_read : Library → Option Bytes → Result PoolFault (List Bytes)
unfolding pool_of
pool_read lib none = err not_read
pool_read lib (some b) = pool_of (lib.append_certs b)

unfoldable pub ca_cert_pool : Library → Files → Bytes → Result PoolFault (List Bytes)
unfolding pool_read
ca_cert_pool lib files name = pool_read lib (files name)
