-- ===== src/Certificates/Ends.antt =====
-- chapter11/cert.go: how the program ends, and what caCertPool makes of its file.
use networking_in_go.Certificates.{
  Library, System, Flags, Files, Fault, issue, put, fill, write_cert, fill_key, write_key,
  key_after, write_both, main,
}
use networking_in_go.Certificates.Written.{
  no_fault, write_cert-ok, write_key-Keeps, write_cert-Keeps,
}
use networking_in_go.Prelude.{
  Bytes, codes, equal, equal_apart, length, ltb, Result, ok, err, arith, some, [], true, false,
  refl, inl, inr, ◌≡◌, ◌≤◌, ◌∙◌, ◌⊎◌,
}

-- The certificate is in its file.
abbrev pub HasCertificate : Library → Flags → Files → Type 0
HasCertificate lib flags files =
    (priv : Bytes) × (der : Bytes) × (issue lib flags ≡ ok (priv, der))
    × (files flags.cert_fn ≡ some (lib.pem (codes "CERTIFICATE") der))

module _ (lib : Library) (sys : System) (flags : Flags)
    (ne : equal flags.cert_fn flags.key_fn ≡ false) where
  key_after-HasCertificate :
      (priv der : Bytes) (step : Files × Result Fault (Unit {0})) (files : Files)
      → issue lib flags ≡ ok (priv, der)
      → step.0 flags.key_fn ≡ files flags.key_fn
      → (step.1 ≡ ok tt → step.0 flags.cert_fn ≡ some (lib.pem (codes "CERTIFICATE") der))
      → ((key_after lib sys flags priv step).0 flags.key_fn ≡ files flags.key_fn)
        ⊎ HasCertificate lib flags (key_after lib sys flags priv step).0
  unfolding key_after
  key_after-HasCertificate priv der (files', err e) files i k w = inl k
  key_after-HasCertificate priv der (files', ok u) files i k w =
      inr (priv, der, i, write_key-Keeps lib sys flags.key_fn priv files' flags.cert_fn ne ∙ w refl)

  write_both-HasCertificate :
      (r : Result Fault (Bytes × Bytes)) (files : Files)
      → issue lib flags ≡ r
      → ((write_both lib sys flags r files).0 flags.key_fn ≡ files flags.key_fn)
        ⊎ HasCertificate lib flags (write_both lib sys flags r files).0
  unfolding write_both
  write_both-HasCertificate (err e) files i = inl refl
  write_both-HasCertificate (ok (priv, der)) files i =
      key_after-HasCertificate priv der (write_cert lib sys flags.cert_fn der files) files i
        (write_cert-Keeps lib sys flags.cert_fn files der flags.key_fn
          (equal_apart flags.cert_fn flags.key_fn ne))
        (write_cert-ok lib sys flags.cert_fn files der)

module _ (sys : System) (name b : Bytes) (opens : sys.opens name ≡ true)
    (closes : sys.closes name ≡ true) (fits : length b ≤ sys.room name) where
  fits_test : ltb (sys.room name) (length b) ≡ false
  fits_test = ground arith

  fill_done : (files : Files) → (fill sys name b files).1 ≡ ok tt
  unfolding fill
  fill_done files = rw (fits_test, closes) refl

-- What lets the program end without an error.
pub record Ready (lib : Library) (sys : System) (flags : Flags) : Type 0 where
  pub priv : Bytes
  pub der : Bytes
  pub marshalled : Bytes
  pub issued : issue lib flags ≡ ok (priv, der)
  pub key : lib.marshal_key priv ≡ some marshalled
  pub opens : (name : Bytes) → sys.opens name ≡ true
  pub closes : (name : Bytes) → sys.closes name ≡ true
  pub cert_fits : length (lib.pem (codes "CERTIFICATE") der) ≤ sys.room flags.cert_fn
  pub key_fits : length (lib.pem (codes "EC PRIVATE KEY") marshalled) ≤ sys.room flags.key_fn

module _ (lib : Library) (sys : System) (flags : Flags) (ready : Ready lib sys flags) where
  write_cert_done : (files : Files) → (write_cert lib sys flags.cert_fn ready.der files).1 ≡ ok tt
  unfolding write_cert
  write_cert_done files = rw (ready.opens flags.cert_fn) (
      fill_done sys flags.cert_fn (lib.pem (codes "CERTIFICATE") ready.der) (ready.opens _)
        (ready.closes _) ready.cert_fits files)

  write_key_done : (files : Files) → (write_key lib sys flags.key_fn ready.priv files).1 ≡ ok tt
  unfolding write_key fill_key
  write_key_done files =
      rw (ready.opens flags.key_fn, ready.key)
        (fill_done sys flags.key_fn (lib.pem (codes "EC PRIVATE KEY") ready.marshalled)
          (ready.opens _) (ready.closes _) ready.key_fits (put flags.key_fn [] files))

  key_after_done :
      (step : Files × Result Fault (Unit {0}))
      → step.1 ≡ ok tt
      → (key_after lib sys flags ready.priv step).1 ≡ ok tt
  unfolding key_after
  key_after_done (files, err e) h = absurd (no_fault h)
  key_after_done (files, ok u) h = write_key_done files

-- Whatever goes wrong, the file of the private key is touched only when the certificate is in its file.
pub main-HasCertificate :
    (lib : Library) (sys : System) (flags : Flags) (files : Files)
    → equal flags.cert_fn flags.key_fn ≡ false
    → ((main lib sys flags files).0 flags.key_fn ≡ files flags.key_fn)
      ⊎ HasCertificate lib flags (main lib sys flags files).0
unfolding main
main-HasCertificate lib sys flags files ne =
    write_both-HasCertificate lib sys flags ne (issue lib flags) files refl

-- If the libraries give a certificate and a key, and the files can be opened, hold them and can be
-- closed, the program ends without an error.
pub main_done :
    (lib : Library) (sys : System) (flags : Flags) (files : Files)
    → Ready lib sys flags
    → (main lib sys flags files).1 ≡ ok tt
unfolding main write_both
main_done lib sys flags files ready = rw ready.issued (
    key_after_done lib sys flags ready (write_cert lib sys flags.cert_fn ready.der files)
      (write_cert_done lib sys flags ready files))
