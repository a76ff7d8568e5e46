-- ===== src/Certificates/Hosts.antt =====
-- chapter11/cert.go: the hosts of the certificate.
use networking_in_go.Certificates.{Template, Library, Flags, add_host, add_hosts, template}
use networking_in_go.Go.Fields.{split}
use networking_in_go.Prelude.{
  none, some, [], ◌∷◌, arith, ap₂, Bytes, length, append_assoc, append-nil, some, [], ◌∷◌, refl,
  Option, List, ◌≡◌, ℕ, ◌++◌, ◌+◌, suc, ap, sym, ◌∙◌, ap₂, arith,
}

abbrev put_address : Option Bytes → List Bytes → List Bytes
put_address none ips = ips
put_address (some ip) ips = ip ∷ ips

abbrev put_name : Bytes → Option Bytes → List Bytes → List Bytes
put_name h none hs = h ∷ hs
put_name h (some ip) hs = hs

-- The addresses of those hosts that are addresses, and the hosts that are none, in their order.
abbrev pub addresses : (Bytes → Option Bytes) → List Bytes → List Bytes
addresses parse_ip [] = []
addresses parse_ip (h ∷ hs) = put_address (parse_ip h) (addresses parse_ip hs)

abbrev pub names : (Bytes → Option Bytes) → List Bytes → List Bytes
names parse_ip [] = []
names parse_ip (h ∷ hs) = put_name h (parse_ip h) (names parse_ip hs)

add_host-put_address :
    (h : Bytes) (o : Option Bytes) (t : Template) (ips : List Bytes)
    → (add_host h o t).ip_addresses ++ ips ≡ t.ip_addresses ++ put_address o ips
unfolding add_host
add_host-put_address h none t ips = refl
add_host-put_address h (some ip) t ips = append_assoc t.ip_addresses (ip ∷ []) ips

add_host-put_name :
    (h : Bytes) (o : Option Bytes) (t : Template) (hs : List Bytes)
    → (add_host h o t).dns_names ++ hs ≡ t.dns_names ++ put_name h o hs
unfolding add_host
add_host-put_name h none t hs = append_assoc t.dns_names (h ∷ []) hs
add_host-put_name h (some ip) t hs = refl

put_address-put_name :
    (h : Bytes) (o : Option Bytes) (ips hs : List Bytes)
    → length (put_address o ips) + length (put_name h o hs) ≡ suc (length ips + length hs)
put_address-put_name h none ips hs = omega arith
put_address-put_name h (some ip) ips hs = omega arith

module _ (parse_ip : Bytes → Option Bytes) where
  add_hosts-addresses :
      (hs : List Bytes) (t : Template)
      → (add_hosts parse_ip hs t).ip_addresses ≡ t.ip_addresses ++ addresses parse_ip hs
  unfolding add_hosts
  add_hosts-addresses [] t = sym (append-nil t.ip_addresses)
  add_hosts-addresses (h ∷ hs) t =
      add_hosts-addresses hs _ ∙ add_host-put_address h (parse_ip h) t _

  add_hosts-names :
      (hs : List Bytes) (t : Template)
      → (add_hosts parse_ip hs t).dns_names ≡ t.dns_names ++ names parse_ip hs
  unfolding add_hosts
  add_hosts-names [] t = sym (append-nil t.dns_names)
  add_hosts-names (h ∷ hs) t = add_hosts-names hs _ ∙ add_host-put_name h (parse_ip h) t _

  addresses-names :
      (hs : List Bytes) → length (addresses parse_ip hs) + length (names parse_ip hs) ≡ length hs
  addresses-names [] = omega arith
  addresses-names (h ∷ hs) = put_address-put_name h (parse_ip h) _ _ ∙ ap suc (addresses-names hs)

-- The certificate has the addresses of those hosts that ParseIP reads, and as names the others, each
-- in the order of the flag, and no host is lost.
pub template-addresses :
    (lib : Library) (flags : Flags) (serial : ℕ)
    → let t = template lib flags serial in
      let hosts = split b',' flags.host in
      (t.ip_addresses ≡ addresses lib.parse_ip hosts)
      × (t.dns_names ≡ names lib.parse_ip hosts)
      × (length t.ip_addresses + length t.dns_names ≡ length hosts)
unfolding template
template-addresses lib flags serial =
    let hosts = split b',' flags.host in
    let e = add_hosts-addresses lib.parse_ip hosts _ in
    let f = add_hosts-names lib.parse_ip hosts _ in
    (e, f, ap₂ (λ a b. length a + length b) e f ∙ addresses-names lib.parse_ip hosts)
