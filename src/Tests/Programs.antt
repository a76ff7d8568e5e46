-- ===== src/Tests/Programs.antt =====
-- Tests of the programs that make certificates, that count requests, and that serve files over TFTP.
use networking_in_go.Certificates.{
  Library, System, Flags, Files, main, issue, template, add_hosts, or_fault,
}
use networking_in_go.Certificates.Written.{Issued, main-Issued}
use networking_in_go.Certificates.Ends.{Ready, main_done}
use networking_in_go.Prelude.{
  Bytes, codes, equal, ok, if◌then◌else◌, arith, none, some, [], ◌∷◌, true, false, refl, Option,
  List, ◌≡◌,
}

-- A certificate is the private key behind a byte, and a block of PEM the bytes behind its type's.
abbrev pub toy_pem : Bytes → Bytes → Bytes
toy_pem kind b = b'-' ∷ b

abbrev pub toy_certs : Bytes → Option (List Bytes)
toy_certs [] = none
toy_certs (c ∷ b) = some (b ∷ [])

abbrev pub library : Library
library = record {
  serial = some 7;
  now = 0;
  parse_ip = λ h. if equal h (codes "127.0.0.1") then some (codes "ip") else none;
  generate_key = some (codes "key");
  create_certificate = λ t parent key. some (codes "cert");
  marshal_key = λ key. some key;
  pem = toy_pem;
  append_certs = toy_certs;
}

abbrev pub system : System
system = record { opens = λ name. true; closes = λ name. true; room = λ name. 100 }

abbrev pub flags : Flags
flags = record {
  host = codes "localhost,127.0.0.1,a";
  cert_fn = codes "cert.pem";
  key_fn = codes "key.pem";
  org = codes "org";
}

abbrev pub no_files : Files
no_files name = none

abbrev end_files : Files
end_files = (main library system flags no_files).0

pub names_differ : equal flags.cert_fn flags.key_fn ≡ false
unfolding equal
names_differ = refl

pub issues : issue library flags ≡ ok (codes "key", codes "cert")
unfolding issue or_fault template add_hosts
issues = refl

ready : Ready library system flags
ready = record {
  priv = codes "key";
  der = codes "cert";
  marshalled = codes "key";
  issued = issues;
  key = refl;
  opens = λ name. refl;
  closes = λ name. refl;
  cert_fits = omega arith;
  key_fits = omega arith;
}

pub ends_well : (main library system flags no_files).1 ≡ ok tt
ends_well = main_done library system flags no_files ready

main-Issued_example : Issued library flags end_files
main-Issued_example = main-Issued library system flags no_files names_differ ends_well
