-- ===== src/Tests/Service.antt =====
-- Tests of the service behind its connection.
use networking_in_go.Certificates
use networking_in_go.Tests.Programs.{library, system, flags, no_files, names_differ, ends_well}
use networking_in_go.Chores.Chore.{Chore, mark}
use networking_in_go.Chores.Client
use networking_in_go.Chores.Network.{Verify, TlsConfig, server_main, client_main, commanded}
use networking_in_go.Chores.Network.Pinned.{IsX509, client_main-main}
use networking_in_go.Chores.Robot.{Rosie, add_request, complete_request}
use networking_in_go.Chores.Robot.Shared.{list_late, list_late_torn}
use networking_in_go.Go.Fields.{split}
use networking_in_go.Prelude.{
  Bytes, codes, equal, ok, pos, none, some, [], ◌∷◌, true, false, refl, Option, ◌≡◌, ◌++◌, ◌+◌, ◌≢◌,
  equal_self, Among, inl, arith,
}

abbrev chore : Bytes → Chore
chore s = record { complete = false; description = s }

abbrev rosie : Rosie
rosie = record { chores = some (chore (codes "mop") ∷ []) }

-- "dust" is added before "mop" is marked; the client gets "mop", marked, alone.
list_late_torn_example :
    let cs = chore (codes "mop") ∷ [] in
    (list_late rosie (add_request (chore (codes "dust") ∷ []) ∷ complete_request (pos (0 + 1)) ∷ [])
      ≡ mark cs 0)
    × (mark cs 0 ≢ cs)
    × (mark cs 0 ≢ cs ++ chore (codes "dust") ∷ [])
    × (mark cs 0 ≢ mark (cs ++ chore (codes "dust") ∷ []) 0)
list_late_torn_example =
    list_late_torn rosie 0 (chore (codes "mop")) (chore (codes "dust")) [] refl refl

-- The pair is read as the certificate, and a pool accepts what it holds.
abbrev pair : Bytes → Bytes → Option Bytes
pair c k = elim c [ [] ↦ none | b ∷ rest ↦ some rest ]

abbrev verify : Verify
verify pool addr now cert = elim pool [ [] ↦ false | c ∷ rest ↦ equal c cert ]

x509 : IsX509 library pair verify (codes "localhost") (codes "localhost:34443")
x509 = record {
  reads = λ t priv der m e f. refl;
  appends = λ t priv der e. refl;
  accepts = λ t priv der now e good. equal_self der;
}

listed : Among (codes "localhost") (split b',' flags.host)
unfolding split
listed = inl refl

client_main-main_example :
    let made = (Certificates.main library system flags no_files).0 in
    (server : TlsConfig) × (server_main pair true made flags.cert_fn flags.key_fn ≡ ok server)
    × (client_main verify
          (codes "localhost:34443")
          1
          library.append_certs
          server
          true
          (made flags.cert_fn)
          (codes "list" ∷ [])
          rosie
        ≡ (
          (Client.main (codes "list" ∷ []) rosie).0,
          commanded (Client.main (codes "list" ∷ []) rosie).1,
        ))
client_main-main_example =
    client_main-main library system flags no_files pair verify (codes "localhost")
      (codes "localhost:34443") 1 (codes "list" ∷ []) rosie x509 names_differ ends_well listed
      (omega arith) (omega arith)
