-- ===== src/Certificates/Valid.antt =====
-- chapter11/cert.go: for whom and when the certificate is good.
use networking_in_go.Certificates.{
  Library, Flags, Template, server_auth, validity, add_host, add_hosts, template,
}
use networking_in_go.Go.Fields.{split}
use networking_in_go.Prelude.{
  Bytes, ℕ, Among, Among-append, Among-snoc, Option, none, some, List, [], ◌∷◌, ◌≡◌, ◌≤◌, ◌+◌, true,
  refl, inl, inr, subst,
}

-- The host is a name of the template, or its address one of its addresses.
abbrev pub NamedAt : Option Bytes → Bytes → Template → Type 0
NamedAt (some ip) h t = Among ip t.ip_addresses
NamedAt none h t = Among h t.dns_names

abbrev pub second : ℕ
second = 1_000_000_000

-- A certificate for a server of this host at this time, which is an authority too.
pub record IsGood (parse_ip : Bytes → Option Bytes) (host : Bytes) (now : ℕ) (t : Template)
    : Type 0 where
  pub authority : (t.basic_constraints_valid ≡ true) × (t.is_ca ≡ true)
  pub usage : Among server_auth t.ext_key_usage
  pub begun : t.not_before ≤ now
  pub not_over : now + second ≤ t.not_after  -- a certificate has whole seconds
  pub named : NamedAt (parse_ip host) host t

add_host-new : (h : Bytes) (o : Option Bytes) (t : Template) → NamedAt o h (add_host h o t)
unfolding add_host
add_host-new h (some ip) t = Among-snoc ip t.ip_addresses
add_host-new h none t = Among-snoc h t.dns_names

add_host-old :
    (o : Option Bytes) (h g : Bytes) (p : Option Bytes) (t : Template)
    → NamedAt o h t
    → NamedAt o h (add_host g p t)
unfolding add_host
add_host-old (some ip) h g (some q) t n = Among-append ip t.ip_addresses (q ∷ []) n
add_host-old (some ip) h g none t n = n
add_host-old none h g (some q) t n = n
add_host-old none h g none t n = Among-append h t.dns_names (g ∷ []) n

module _ (parse_ip : Bytes → Option Bytes) where
  add_host-IsGood :
      (host : Bytes) (now : ℕ) (g : Bytes) (o : Option Bytes) (t : Template)
      → IsGood parse_ip host now t
      → IsGood parse_ip host now (add_host g o t)
  unfolding add_host
  add_host-IsGood host now g (some ip) t i = record {
    authority = i.authority;
    usage = i.usage;
    begun = i.begun;
    not_over = i.not_over;
    named = add_host-old (parse_ip host) host g (some ip) t i.named;
  }
  add_host-IsGood host now g none t i = record {
    authority = i.authority;
    usage = i.usage;
    begun = i.begun;
    not_over = i.not_over;
    named = add_host-old (parse_ip host) host g none t i.named;
  }

  add_hosts-IsGood :
      (host : Bytes) (now : ℕ) (hs : List Bytes) (t : Template)
      → IsGood parse_ip host now t
      → IsGood parse_ip host now (add_hosts parse_ip hs t)
  unfolding add_hosts
  add_hosts-IsGood host now [] t i = i
  add_hosts-IsGood host now (g ∷ hs) t i =
      add_hosts-IsGood host now hs _ (add_host-IsGood host now g (parse_ip g) t i)

  -- What a host that is added lacks before is its name.
  record IsReady (now : ℕ) (t : Template) : Type 0 where
    authority : (t.basic_constraints_valid ≡ true) × (t.is_ca ≡ true)
    usage : Among server_auth t.ext_key_usage
    begun : t.not_before ≤ now
    not_over : now + second ≤ t.not_after

  add_host-IsReady :
      (now : ℕ) (g : Bytes) (o : Option Bytes) (t : Template)
      → IsReady now t
      → IsReady now (add_host g o t)
  unfolding add_host
  add_host-IsReady now g (some ip) t i = record {
    authority = i.authority;
    usage = i.usage;
    begun = i.begun;
    not_over = i.not_over;
  }
  add_host-IsReady now g none t i = record {
    authority = i.authority;
    usage = i.usage;
    begun = i.begun;
    not_over = i.not_over;
  }

  add_hosts-listed :
      (host : Bytes) (now : ℕ) (hs : List Bytes) (t : Template)
      → IsReady now t
      → Among host hs
      → IsGood parse_ip host now (add_hosts parse_ip hs t)
  unfolding add_hosts
  add_hosts-listed host now [] t i m = absurd m
  add_hosts-listed host now (g ∷ hs) t i (inr m) =
      add_hosts-listed host now hs _ (add_host-IsReady now g (parse_ip g) t i) m
  add_hosts-listed host now (g ∷ hs) t i (inl e) =
      let r = add_host-IsReady now g (parse_ip g) t i in
      add_hosts-IsGood host now hs _ (record {
        authority = r.authority;
        usage = r.usage;
        begun = r.begun;
        not_over = r.not_over;
        named =
            subst (λ h. NamedAt (parse_ip host) host (add_host h (parse_ip h) t)) e
              (add_host-new host (parse_ip host) t);
      })

pub template-IsGood :
    (lib : Library) (flags : Flags) (serial : ℕ) (host : Bytes) (now : ℕ)
    → Among host (split b',' flags.host)
    → lib.now ≤ now
    → now + second ≤ lib.now + validity
    → IsGood lib.parse_ip host now (template lib flags serial)
unfolding template
template-IsGood lib flags serial host now m b e =
    add_hosts-listed lib.parse_ip host now (split b',' flags.host) _
      (record { authority = (refl, refl); usage = inl refl; begun = b; not_over = e }) m
