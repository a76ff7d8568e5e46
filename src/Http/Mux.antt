-- ===== src/Http/Mux.antt =====
-- What chapter9/push.go uses of net/http to find a handler: `http.ServeMux` and `http.StripPrefix`. The
-- URL of a request has no RawPath, and its path is not "*".
pub mod Clean
use networking_in_go.Http.Exchange.{Exchange, Handler, http_error}
use networking_in_go.Http.Middleware.{has_prefix, clean}
use networking_in_go.Prelude.{
  Bytes, codes, none, some, [], ◌∷◌, true, false, refl, inl, inr, Option, List, ◌≡◌, Bool, ℕ, ◌++◌,
  ◌+◌, ◌-◌, ◌≤◌, ◌<◌, zero, suc, ap, sym, ◌∙◌, if◌then◌else◌, ◌==◌, not, equal, ltb, ◌&&◌, length,
}

-- A pattern and its handler.
abbrev pub Route : Type 0
Route = Bytes × Handler

unfoldable pub exact : Bytes → List Route → Option Handler
exact path [] = none
exact path ((pattern, h) ∷ routes) = if equal pattern path then some h else exact path routes

-- Whether the last byte is a slash.
unfoldable pub ends_in_slash : Bytes → Bool
ends_in_slash [] = false
ends_in_slash (c ∷ []) = c == b'/'
ends_in_slash (c ∷ d ∷ s) = ends_in_slash (d ∷ s)

longer : Route → Option Route → Option Route
longer route none = some route
longer route (some best) = if ltb (length route.0) (length best.0) then some best else some route

-- Of the patterns that end in a slash and begin the path, the longest one.
unfoldable pub longest : Bytes → List Route → Option Route
unfolding longer ends_in_slash
longest path [] = none
longest path (route ∷ routes) =
    let best = longest path routes in
    if ends_in_slash route.0 && has_prefix path route.0 then longer route best else best

handler_of : Option Route → Option Handler
handler_of none = none
handler_of (some route) = some route.1

or_else : Option Handler → Option Handler → Option Handler
or_else (some h) other = some h
or_else none other = other

-- `ServeMux.match`.
unfoldable pub match : Bytes → List Route → Option Handler
unfolding or_else handler_of exact longest
match path routes = or_else (exact path routes) (handler_of (longest path routes))

unfoldable pub rooted : Bytes → Bytes
rooted path = if has_prefix path (codes "/") then path else b'/' ∷ path

-- `cleanPath`: a slash at the end is kept.
unfoldable pub clean_path : Bytes → Bytes
unfolding rooted ends_in_slash
clean_path path =
    let cleaned = clean (rooted path) in
    if ends_in_slash path && not (equal cleaned (codes "/")) then cleaned ++ codes "/" else cleaned

unfoldable pub is_some : Option Handler → Bool
is_some none = false
is_some (some h) = true

-- Whether there is a handler for the path with a slash, and none for the path itself.
unfoldable pub lacks_slash : Bytes → List Route → Bool
unfolding is_some exact
lacks_slash path routes =
    not (is_some (exact path routes)) && is_some (exact (path ++ codes "/") routes)

unfoldable pub serve_found : Option Handler → Handler
serve_found none x = http_error (codes "404 page not found") 404 x
serve_found (some h) x = h x

-- The rest of `ServeMux.ServeHTTP`, once it is known whether the path lacks a slash and what serves it.
unfoldable pub decide : (Bytes → Handler) → Bytes → Bool → Option Handler → Handler
unfolding serve_found
decide redirect path lacks found x =
    if lacks
    then redirect (path ++ codes "/") x
    else if equal path x.path
    then serve_found found x
    else redirect path x

-- The path to look for.
unfoldable pub path_of : Exchange → Bytes
unfolding clean_path
path_of x = if equal x.method (codes "CONNECT") then x.path else clean_path x.path

-- `ServeMux.ServeHTTP`. The first argument answers by sending the client to another path.
unfoldable pub serve_mux : (Bytes → Handler) → List Route → Handler
unfolding decide path_of match lacks_slash
serve_mux redirect routes x =
    let path = path_of x in decide redirect path (lacks_slash path routes) (match path routes) x

-- `strings.TrimPrefix`, for a text that has the prefix.
unfoldable pub trim_prefix : Bytes → Bytes → Bytes
trim_prefix s [] = s
trim_prefix [] (b ∷ prefix) = []
trim_prefix (a ∷ s) (b ∷ prefix) = trim_prefix s prefix

-- `http.StripPrefix`, for a prefix that is not empty: `next` gets a copy of the request.
unfoldable pub strip_prefix : Bytes → Handler → Handler
unfolding trim_prefix
strip_prefix prefix next x =
    let y = next (record x { path = trim_prefix x.path prefix }) in
    if has_prefix x.path prefix
    then record y { path = x.path }
    else http_error (codes "404 page not found") 404 x
