-- ===== src/Caddy.antt =====
-- caddy/caddy-restrict-prefix/restrict_prefix.go, as the module that Caddy makes, provisions, validates and
-- calls, and caddy/caddy-adapter/toml.go. Caddy's loggers and the packages for TOML and JSON are parameters.
pub mod Restricted
use networking_in_go.Go.Fields.{split}
use networking_in_go.Http.Exchange.{Exchange, http_error}
use networking_in_go.Http.Middleware.{has_prefix, validate}
use networking_in_go.Prelude.{
  Bytes, codes, List, [], ◌∷◌, Option, none, some, Bool, true, false, if◌then◌else◌, Result, ok,
  err, refl, inl, inr, ◌≡◌, ℕ, ◌++◌, ◌+◌, ◌-◌, ◌≤◌, ◌<◌, zero, suc, ap, sym, ◌∙◌,
}

module _ (L : Type 0) where
  pub record RestrictPrefix : Type 0 where
    pub prefix : Bytes
    pub logger : Option L

  -- The operands of a message to a logger: an element of the path, and the path.
  pub record Message : Type 0 where
    pub logger : L
    pub part : Bytes
    pub path : Bytes

-- `ModuleInfo`: the identifier, and the instance that `New` makes.
abbrev pub module_id : Bytes
module_id = codes "http.handlers.restrict_prefix"

abbrev pub new_module : (L : Type 0) → RestrictPrefix L
new_module L = record { prefix = []; logger = none }

-- The key `prefix` of the module's JSON, which may be left out.
unfoldable pub unmarshal : {L : Type 0} → Option Bytes → RestrictPrefix L → RestrictPrefix L
unmarshal none p = p
unmarshal (some s) p = record p { prefix = s }

unfoldable pub provision : {L : Type 0} → L → RestrictPrefix L → RestrictPrefix L
provision l p = record p { logger = some l }

unfoldable pub validate_module : {L : Type 0} → RestrictPrefix L → RestrictPrefix L
validate_module p = record p { prefix = validate p.prefix }

-- What Caddy does with the module of a configuration before it serves.
unfoldable pub load_module : {L : Type 0} → Option Bytes → L → RestrictPrefix L
unfolding unmarshal provision validate_module
load_module {L} config l = validate_module (provision l (unmarshal config (new_module L)))

-- A handler of Caddy's returns an error too.
abbrev pub CaddyHandler : Type 0 → Type 0
CaddyHandler E = Exchange → Exchange × Option E

-- `p.logger.Debug`, unless the logger is nil.
unfoldable pub debug : {L : Type 0} → Option L → Bytes → Bytes → List (Message L)
debug none part path = []
debug (some l) part path = record { logger = l; part = part; path = path } ∷ []

-- The loop of `ServeHTTP` over the elements of the path: the response, the error, and what is logged.
unfoldable pub serve_parts :
    {L E : Type 0}
    → RestrictPrefix L
    → CaddyHandler E
    → List Bytes
    → Exchange
    → Exchange × Option E × List (Message L)
unfolding debug
serve_parts p next [] x = let (y, e) = next x in (y, e, [])
serve_parts p next (part ∷ parts) x =
    let rest = serve_parts p next parts x in
    if has_prefix part p.prefix
    then (http_error (codes "Not Found") 404 x, none, debug p.logger part x.path)
    else rest

unfoldable pub serve_http :
    {L E : Type 0}
    → RestrictPrefix L
    → CaddyHandler E
    → Exchange
    → Exchange × Option E × List (Message L)
unfolding serve_parts
serve_http p next x = serve_parts p next (split b'/' x.path) x

-- The packages that the adapter calls: `toml.LoadBytes`, `ToMap` and `json.Marshal`.
pub record Conversions (Tree Map E : Type 0) : Type 0 where
  pub load_bytes : Bytes → Result E Tree
  pub to_map : Tree → Map
  pub marshal : Map → Result E Bytes

abbrev pub adapter_name : Bytes
adapter_name = codes "toml"

-- `Adapt`: the JSON, if any, and the error; there are no warnings.
unfoldable pub adapted : {E : Type 0} → Result E Bytes → Option Bytes × Option E
adapted (err e) = (none, some e)
adapted (ok b) = (some b, none)

unfoldable pub adapt_tree :
    {Tree Map E : Type 0} → Conversions Tree Map E → Result E Tree → Option Bytes × Option E
unfolding adapted
adapt_tree lib (err e) = (none, some e)
adapt_tree lib (ok tree) = adapted (lib.marshal (lib.to_map tree))

unfoldable pub adapt :
    {Tree Map E : Type 0} → Conversions Tree Map E → Bytes → Option Bytes × Option E
unfolding adapt_tree
adapt lib body = adapt_tree lib (lib.load_bytes body)
