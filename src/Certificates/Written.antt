-- ===== src/Certificates/Written.antt =====
-- chapter11/cert.go: what is in the files.
use networking_in_go.Certificates.{
  Library, System, Flags, Files, Fault, issue, put, fill, write_cert, fill_key, write_key,
  key_after, write_both, main, or_fault, template, no_serial, no_key, no_certificate,
}
use networking_in_go.Prelude.{
  Bytes, codes, equal, equal_self, take, take_of_le, length, ltb, Result, ok, err, Bool-cases,
  arith, none, some, [], false, refl, inl, inr, Option, ◌≡◌, ap, ◌∙◌, ℕ, sym, bind-ok, ok_injective,
}

put_same : (name b : Bytes) (files : Files) → put name b files name ≡ some b
unfolding put
put_same name b files = rw (equal_self name) refl

pub put_other :
    (name b : Bytes) (files : Files) (other : Bytes)
    → equal other name ≡ false
    → put name b files other ≡ files other
unfolding put
put_other name b files other h = rw h refl

pub no_fault : {A : Type 0} {e : Fault} {a : A} → ¬ (err e ≡ ok a)
no_fault h = cc

-- Of a step that writes one file: what is in it if there was no error.
abbrev Wrote : Bytes → Bytes → Files × Result Fault (Unit {0}) → Type 0
Wrote name b step = step.1 ≡ ok tt → step.0 name ≡ some b

-- A step changes no other file.
abbrev Keeps : Files → Bytes → Files × Result Fault (Unit {0}) → Type 0
Keeps files name step = (other : Bytes) → equal other name ≡ false → step.0 other ≡ files other

module _ (sys : System) (name b : Bytes) (files : Files) where
  fill-ok : Wrote name b (fill sys name b files)
  unfolding fill
  fill-ok h = elim (Bool-cases (ltb (sys.room name) (length b))) [
    | inl e ↦ absurd (no_fault (rw e at h))
    | inr e ↦
        put_same name (take (sys.room name) b) files
        ∙ ap some (take_of_le (sys.room name) b (ground arith))
  ]

  fill-Keeps : Keeps files name (fill sys name b files)
  unfolding fill
  fill-Keeps other h = put_other name (take (sys.room name) b) files other h

module _ (lib : Library) (sys : System) (name : Bytes) (files : Files) where
  pub write_cert-ok :
      (der : Bytes)
      → Wrote name (lib.pem (codes "CERTIFICATE") der) (write_cert lib sys name der files)
  unfolding write_cert
  write_cert-ok der h = elim (Bool-cases (sys.opens name)) [
    | inl e ↦ rw e (fill-ok sys name (lib.pem (codes "CERTIFICATE") der) files (rw e at h))
    | inr e ↦ absurd (no_fault (rw e at h))
  ]

  pub write_cert-Keeps : (der : Bytes) → Keeps files name (write_cert lib sys name der files)
  unfolding write_cert
  write_cert-Keeps der other h = elim (Bool-cases (sys.opens name)) [
    | inl e ↦ rw e (fill-Keeps sys name (lib.pem (codes "CERTIFICATE") der) files other h)
    | inr e ↦ rw e refl
  ]

  fill_key-ok :
      (o : Option Bytes)
      → (fill_key lib sys name o files).1 ≡ ok tt
      → (m : Bytes) × (o ≡ some m)
        × ((fill_key lib sys name o files).0 name ≡ some (lib.pem (codes "EC PRIVATE KEY") m))
  unfolding fill_key
  fill_key-ok none h = absurd (no_fault h)
  fill_key-ok (some m) h = (m, refl, fill-ok sys name (lib.pem (codes "EC PRIVATE KEY") m) files h)

  fill_key-Keeps : (o : Option Bytes) → Keeps files name (fill_key lib sys name o files)
  unfolding fill_key
  fill_key-Keeps none other h = refl
  fill_key-Keeps (some m) other h =
      fill-Keeps sys name (lib.pem (codes "EC PRIVATE KEY") m) files other h

module _ (lib : Library) (sys : System) (name priv : Bytes) (files : Files) where
  write_key-ok :
      (write_key lib sys name priv files).1 ≡ ok tt
      → (m : Bytes) × (lib.marshal_key priv ≡ some m)
        × ((write_key lib sys name priv files).0 name ≡ some (lib.pem (codes "EC PRIVATE KEY") m))
  unfolding write_key
  write_key-ok h = elim (Bool-cases (sys.opens name)) [
    | inl e ↦ rw e (fill_key-ok lib sys name (put name [] files) (lib.marshal_key priv) (rw e at h))
    | inr e ↦ absurd (no_fault (rw e at h))
  ]

  pub write_key-Keeps : Keeps files name (write_key lib sys name priv files)
  unfolding write_key
  write_key-Keeps other h = elim (Bool-cases (sys.opens name)) [
    | inl e ↦ rw e (
        fill_key-Keeps lib sys name (put name [] files) (lib.marshal_key priv) other h
        ∙ put_other name [] files other h)
    | inr e ↦ rw e refl
  ]

or_fault-ok : {A : Type 0} (e : Fault) (o : Option A) {a : A} → or_fault e o ≡ ok a → o ≡ some a
unfolding or_fault
or_fault-ok e none h = absurd (no_fault h)
or_fault-ok e (some x) h = cc

-- The private key and the certificate that the files hold in the end: the certificate is signed with the key
-- that was generated, for the template as its own parent.
pub record Issued (lib : Library) (flags : Flags) (files : Files) : Type 0 where
  pub priv : Bytes
  pub der : Bytes
  pub marshalled : Bytes
  pub serial : ℕ
  pub generated : lib.generate_key ≡ some priv
  pub signed :
      let t = template lib flags serial in
      (lib.serial ≡ some serial) × (lib.create_certificate t t priv ≡ some der)
  pub key : lib.marshal_key priv ≡ some marshalled
  pub cert_file : files flags.cert_fn ≡ some (lib.pem (codes "CERTIFICATE") der)
  pub key_file : files flags.key_fn ≡ some (lib.pem (codes "EC PRIVATE KEY") marshalled)

module _ (lib : Library) (sys : System) (flags : Flags) where
  abbrev Signed : Bytes → Bytes → Type 0
  Signed priv der =
      (serial : ℕ) × (lib.serial ≡ some serial)
      × (lib.generate_key ≡ some priv)
      × (lib.create_certificate (template lib flags serial) (template lib flags serial) priv
          ≡ some der)

  issue-Signed : {priv der : Bytes} → issue lib flags ≡ ok (priv, der) → Signed priv der
  unfolding issue
  issue-Signed {priv} {der} h =
      let (n, e, h1) = bind-ok (or_fault no_serial lib.serial) _ h in
      let (p, f, h2) = bind-ok (or_fault no_key lib.generate_key) _ h1 in
      let (d, g, h3) = bind-ok (or_fault no_certificate _) _ h2 in
      let same = ok_injective (ok (p, d)) refl h3 in
      let q : p ≡ priv = ap (λ (x : Bytes × Bytes). x.0) same in
      let r : d ≡ der = ap (λ (x : Bytes × Bytes). x.1) same in
      (
        n,
        or_fault-ok no_serial lib.serial e,
        or_fault-ok no_key lib.generate_key f ∙ ap some q,
        ap (lib.create_certificate (template lib flags n) (template lib flags n)) (sym q)
            ∙ or_fault-ok no_certificate _ g
            ∙ ap some r,
      )

  key_after-ok :
      (priv der : Bytes) (step : Files × Result Fault (Unit {0}))
      → Signed priv der
      → equal flags.cert_fn flags.key_fn ≡ false
      → Wrote flags.cert_fn (lib.pem (codes "CERTIFICATE") der) step
      → (key_after lib sys flags priv step).1 ≡ ok tt
      → Issued lib flags (key_after lib sys flags priv step).0
  unfolding key_after
  key_after-ok priv der (files, err e) i ne w h = absurd (no_fault h)
  key_after-ok priv der (files, ok u) i ne w h =
      let (m, k, f) = write_key-ok lib sys flags.key_fn priv files h in
      record {
        priv = priv;
        der = der;
        marshalled = m;
        serial = i.0;
        generated = i.2;
        signed = (i.1, i.3);
        key = k;
        cert_file = write_key-Keeps lib sys flags.key_fn priv files flags.cert_fn ne ∙ w refl;
        key_file = f;
      }

  write_both-ok :
      (r : Result Fault (Bytes × Bytes)) (files : Files)
      → issue lib flags ≡ r
      → equal flags.cert_fn flags.key_fn ≡ false
      → (write_both lib sys flags r files).1 ≡ ok tt
      → Issued lib flags (write_both lib sys flags r files).0
  unfolding write_both
  write_both-ok (err e) files i ne h = absurd (no_fault h)
  write_both-ok (ok (priv, der)) files i ne h =
      key_after-ok priv der (write_cert lib sys flags.cert_fn der files) (issue-Signed i) ne
        (write_cert-ok lib sys flags.cert_fn files der) h

  key_after-Keeps :
      (priv : Bytes) (step : Files × Result Fault (Unit {0}))
      → (other : Bytes) → equal other flags.key_fn ≡ false
      → (key_after lib sys flags priv step).0 other ≡ step.0 other
  unfolding key_after
  key_after-Keeps priv (files, err e) other h = refl
  key_after-Keeps priv (files, ok u) other h =
      write_key-Keeps lib sys flags.key_fn priv files other h

  write_both-Keeps :
      (r : Result Fault (Bytes × Bytes)) (files : Files) (other : Bytes)
      → equal other flags.cert_fn ≡ false
      → equal other flags.key_fn ≡ false
      → (write_both lib sys flags r files).0 other ≡ files other
  unfolding write_both
  write_both-Keeps (err e) files other h k = refl
  write_both-Keeps (ok (priv, der)) files other h k =
      key_after-Keeps priv (write_cert lib sys flags.cert_fn der files) other k
      ∙ write_cert-Keeps lib sys flags.cert_fn files der other h

-- If the program ends without an error, and the names of its files differ, then the files hold the
-- private key that was generated and the certificate that was signed with it for the flags' template,
-- each as a block of PEM.
pub main-Issued :
    (lib : Library) (sys : System) (flags : Flags) (files : Files)
    → equal flags.cert_fn flags.key_fn ≡ false
    → (main lib sys flags files).1 ≡ ok tt
    → Issued lib flags (main lib sys flags files).0
unfolding main
main-Issued lib sys flags files ne h = write_both-ok lib sys flags (issue lib flags) files refl ne h

-- No other file is changed, whether the program ends with an error or not.
pub main_keeps_others :
    (lib : Library) (sys : System) (flags : Flags) (files : Files) (other : Bytes)
    → equal other flags.cert_fn ≡ false
    → equal other flags.key_fn ≡ false
    → (main lib sys flags files).0 other ≡ files other
unfolding main
main_keeps_others lib sys flags files other h k =
    write_both-Keeps lib sys flags (issue lib flags) files other h k
