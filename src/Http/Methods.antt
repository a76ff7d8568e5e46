-- ===== src/Http/Methods.antt =====
-- chapter9/handler.go: Methods, a handler for each method, and DefaultMethodsHandler. A map is a list of
-- its entries, in the order in which a loop happens to visit them.
pub mod Order
pub mod Map
pub mod Dispatch
use networking_in_go.Go.Fields.{join}
use networking_in_go.Http.Escape.{escape_string}
use networking_in_go.Http.Exchange.{
  Exchange, Handler, Header, write, http_error, drain, read_all, add_field,
}
use networking_in_go.Prelude.{
  Bytes, codes, equal, if◌then◌else◌, ltb, ◌==◌, List, Option, Bool, some, none, true, ◌∷◌, ◌∷◌,
  ◌++◌, false, [], ◌&&◌, refl, inl, inr, ◌≡◌, ℕ,
}

-- A value may be nil.
abbrev pub Methods : Type 0
Methods = List (Bytes × Option Handler)

unfoldable pub lookup : Bytes → Methods → Option (Option Handler)
lookup k [] = none
lookup k ((j, h) ∷ ms) = if equal j k then some h else lookup k ms

-- `<=` on strings.
unfoldable pub before : Bytes → Bytes → Bool
before [] t = true
before (a ∷ s) [] = false
before (a ∷ s) (b ∷ t) = let rest = before s t in if ltb a b then true else a == b && rest

unfoldable pub insert : Bytes → List Bytes → List Bytes
insert k [] = k ∷ []
insert k (j ∷ js) = let rest = insert k js in if before k j then k ∷ j ∷ js else j ∷ rest

-- `sort.Strings`.
unfoldable pub sort : List Bytes → List Bytes
unfolding insert
sort [] = []
sort (k ∷ ks) = insert k (sort ks)

unfoldable pub keys : Methods → List Bytes
keys [] = []
keys ((k, h) ∷ ms) = k ∷ keys ms

unfoldable pub allowed_methods : Methods → Bytes
unfolding keys sort
allowed_methods ms = join (sort (keys ms)) (codes ", ")

refuse : Bytes → Handler
refuse allowed x =
    let y = record x { header = add_field (codes "Allow") allowed x.header } in
    if equal x.method (codes "OPTIONS") then y else http_error (codes "Method not allowed") 405 y

dispatch : Option (Option Handler) → Bytes → Handler
unfolding refuse
dispatch (some none) allowed x = http_error (codes "Internal server error") 500 x
dispatch (some (some h)) allowed x = h x
dispatch none allowed x = refuse allowed x

unfoldable pub serve_http : Methods → Handler
unfolding dispatch lookup allowed_methods
serve_http ms x = drain (dispatch (lookup x.method ms) (allowed_methods ms) x)

unfoldable pub get_handler : Handler
get_handler x = write (codes "Hello, friend!") x

greet_post : Option Bytes × Exchange → Exchange
greet_post (none, x) = http_error (codes "Internal server error") 500 x
greet_post (some b, x) = write (codes "Hello, " ++ escape_string b ++ codes "!") x

unfoldable pub post_handler : Handler
unfolding greet_post
post_handler x = greet_post (read_all x)

unfoldable pub default_methods : Methods
unfolding get_handler post_handler
default_methods = (codes "GET", some get_handler) ∷ (codes "POST", some post_handler) ∷ []

unfoldable pub default_methods_handler : Handler
unfolding serve_http default_methods
default_methods_handler = serve_http default_methods
