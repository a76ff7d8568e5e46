-- ===== src/Dial.antt =====
-- chapter3/main.go: DialTimeout, whose dialer refuses every connection by its Control function. Resolving an
-- address and connecting are what the network does.
use networking_in_go.Prelude.{
  Bytes, codes, Result, ok, err, none, some, [], ◌∷◌, true, Option, List, ◌≡◌, Bool, ap, ◌∙◌, refl,
}

-- The fields of a net.DNSError that the function sets.
pub record DnsError : Type 0 where
  pub message : Bytes
  pub name : Bytes
  pub server : Bytes
  pub is_timeout : Bool
  pub is_temporary : Bool

pub data DialError : Type 0 where
  not_resolved not_connected no_address : DialError
  refused : DnsError → DialError

-- The error that is always returned.
abbrev pub timed_out : Bytes → DnsError
timed_out address = record {
  message = codes "connection timed out";
  name = address;
  server = codes "127.0.0.1";
  is_timeout = true;
  is_temporary = true;
}

-- The Control function: it is called with each address before the socket connects.
unfoldable pub control : Bytes → Bytes → Option DnsError
control network address = some (timed_out address)

-- One address, as net.Dialer tries it: an error of Control, if it has one, or what connecting gives.
dial_single : Option DnsError → Option Bytes → Result DialError Bytes
dial_single (some e) conn = err (refused e)
dial_single none none = err not_connected
dial_single none (some c) = ok c

-- The first address that connects, or the first error.
first_of : Result DialError Bytes → Result DialError Bytes → Result DialError Bytes
first_of (ok c) rest = ok c
first_of (err e) (ok c) = ok c
first_of (err e) (err e') = err e

dial_serial :
    (Bytes → Bytes → Option DnsError)
    → (Bytes → Option Bytes)
    → Bytes
    → Bytes
    → List Bytes
    → Result DialError Bytes
unfolding dial_single first_of
dial_serial ctl connect network a [] = dial_single (ctl network a) (connect a)
dial_serial ctl connect network a (b ∷ rest) =
    first_of (dial_single (ctl network a) (connect a)) (dial_serial ctl connect network b rest)

dial_all :
    (Bytes → Bytes → Option DnsError)
    → (Bytes → Option Bytes)
    → Bytes
    → Option (List Bytes)
    → Result DialError Bytes
unfolding dial_serial
dial_all ctl connect network none = err not_resolved
dial_all ctl connect network (some []) = err no_address
dial_all ctl connect network (some (a ∷ rest)) = dial_serial ctl connect network a rest

-- `d.Dial(network, address)`: how the addresses are found, and what connecting to each gives.
unfoldable pub dial_timeout :
    (Bytes → Option (List Bytes)) → (Bytes → Option Bytes) → Bytes → Bytes → Result DialError Bytes
unfolding dial_all control
dial_timeout resolve connect network address = dial_all control connect network (resolve address)

refused_first :
    (connect : Bytes → Option Bytes) (network a : Bytes) (rest : List Bytes)
    → dial_serial control connect network a rest ≡ err (refused (timed_out a))
unfolding dial_serial control dial_single first_of
refused_first connect network a [] = refl
refused_first connect network a (b ∷ rest) =
    ap (first_of (err (refused (timed_out a)))) (refused_first connect network b rest)

-- Whatever the network would do, an address that is resolved gives a timeout, with the name of the first
-- address that was tried, and no connection.
pub dial_timeout-refused :
    (resolve : Bytes → Option (List Bytes)) (connect : Bytes → Option Bytes)
    (network address a : Bytes) (rest : List Bytes)
    → resolve address ≡ some (a ∷ rest)
    → (e : DnsError) × (dial_timeout resolve connect network address ≡ err (refused e))
      × (e.is_timeout ≡ true)
      × (e.is_temporary ≡ true)
      × (e.name ≡ a)
unfolding dial_timeout dial_all
dial_timeout-refused resolve connect network address a rest h = (
  timed_out a,
  ap (dial_all control connect network) h ∙ refused_first connect network a rest,
  refl,
  refl,
  refl,
)
