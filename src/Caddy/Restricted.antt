-- ===== src/Caddy/Restricted.antt =====
-- caddy/caddy-restrict-prefix/restrict_prefix.go: what the module answers and logs.
use networking_in_go.Caddy.{
  RestrictPrefix, CaddyHandler, load_module, debug, serve_parts, serve_http,
}
use networking_in_go.Go.Fields.{split}
use networking_in_go.Http.Exchange.{Exchange, Handler, http_error}
use networking_in_go.Http.Middleware.{has_prefix, validate, caddy_serve_http, restrict_parts}
use networking_in_go.Http.Middleware.Restrict.{Misses}
use networking_in_go.Prelude.{
  Bytes, codes, All, Bool-cases, List, [], ◌∷◌, ◌++◌, Option, none, some, true, ◌≡◌, refl, ◌⊎◌, inl,
  inr, ap,
}

-- A list has an element that begins with the prefix, and none in front of it does.
pub record FirstHit (prefix : Bytes) (parts : List Bytes) : Type 0 where
  pub before : List Bytes
  pub part : Bytes
  pub after : List Bytes
  pub here : parts ≡ before ++ part ∷ after
  pub begins : has_prefix part prefix ≡ true
  pub first : All (Misses prefix) before

module _ {L E : Type 0} (p : RestrictPrefix L) (next : CaddyHandler E) (x : Exchange) where
  serve_parts-cases :
      (parts : List Bytes)
      → (All (Misses p.prefix) parts × (serve_parts p next parts x ≡ ((next x).0, (next x).1, [])))
        ⊎ ((h : FirstHit p.prefix parts) × (serve_parts p next parts x
              ≡ (http_error (codes "Not Found") 404 x, none, debug p.logger h.part x.path)))
  unfolding serve_parts
  serve_parts-cases [] = inl (tt, refl)
  serve_parts-cases (part ∷ parts) = elim (Bool-cases (has_prefix part p.prefix)) [
    | inl e ↦ inr (
      record { before = []; part = part; after = parts; here = refl; begins = e; first = tt },
      rw e refl,
    )
    | inr e ↦ elim (serve_parts-cases parts) [
      | inl (misses, same) ↦ inl ((e, misses), rw e same)
      | inr (h, same) ↦ inr (
        record {
          before = part ∷ h.before;
          part = h.part;
          after = h.after;
          here = ap (◌∷◌ part) h.here;
          begins = h.begins;
          first = (e, h.first);
        },
        rw e same,
      )
    ]
  ]

load_module_lem :
    {L : Type 0} (config : Option Bytes) (l : L)
    → load_module config l
      ≡ record { prefix = validate (elim config [ none ↦ [] | some s ↦ s ]); logger = some l }
unfolding load_module
load_module_lem none l = refl
load_module_lem (some s) l = refl

-- A module that Caddy has loaded hands a request on, logs nothing and returns what the next handler returns,
-- if no element of the path begins with the prefix of the configuration, which is "." where that has none or
-- an empty one. If one does, the answer is 404 with no error, the next handler is not called, and one message
-- is logged, with the first such element and the path.
pub load_module-serve_http :
    {L E : Type 0} (config : Option Bytes) (l : L) (next : CaddyHandler E) (x : Exchange)
    → let prefix = validate (elim config [ none ↦ [] | some s ↦ s ]) in
      (All (Misses prefix) (split b'/' x.path)
        × (serve_http (load_module config l) next x ≡ ((next x).0, (next x).1, [])))
      ⊎ ((h : FirstHit prefix (split b'/' x.path)) × (serve_http (load_module config l) next x ≡ (
        http_error (codes "Not Found") 404 x,
        none,
        record { logger = l; part = h.part; path = x.path } ∷ [],
      )))
unfolding serve_http debug
load_module-serve_http config l next x = rw (load_module_lem config l) (
    serve_parts-cases
      (record { prefix = validate (elim config [ none ↦ [] | some s ↦ s ]); logger = some l }) next
      x (split b'/' x.path))

abbrev pub plain : Handler → CaddyHandler (Unit {0})
plain next x = (next x, none)

serve_parts-restrict_parts :
    {L : Type 0} (p : RestrictPrefix L) (next : Handler) (x : Exchange) (parts : List Bytes)
    → (serve_parts p (plain next) parts x).0 ≡ restrict_parts p.prefix next parts x
unfolding serve_parts restrict_parts
serve_parts-restrict_parts p next x [] = refl
serve_parts-restrict_parts p next x (part ∷ parts) = elim (Bool-cases (has_prefix part p.prefix)) [
  | inl e ↦ rw e refl
  | inr e ↦ rw e (serve_parts-restrict_parts p next x parts)
]

-- The logging changes nothing of the response.
pub serve_http-caddy_serve_http :
    {L : Type 0} (p : RestrictPrefix L) (next : Handler) (x : Exchange)
    → (serve_http p (plain next) x).0 ≡ caddy_serve_http p.prefix next x
unfolding serve_http caddy_serve_http
serve_http-caddy_serve_http p next x = serve_parts-restrict_parts p next x (split b'/' x.path)
