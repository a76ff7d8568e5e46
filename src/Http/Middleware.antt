-- ===== src/Http/Middleware.antt =====
-- chapter9/middleware.go: Middleware and RestrictPrefix, and the Caddy module of the same name in
-- caddy/caddy-restrict-prefix/restrict_prefix.go. The log is left out.
pub mod Paths
pub mod Restrict
pub mod Passing
use networking_in_go.Go.Fields.{split, join}
use networking_in_go.Http.Exchange.{Exchange, Handler, http_error, set_field}
use mathlib.Core.List.{reverse}
use networking_in_go.Prelude.{
  Bytes, codes, equal, if◌then◌else◌, ◌==◌, ◌&&◌, ◌||◌, none, some, [], ◌∷◌, true, false, refl, inl,
  inr, Option, List, ◌≡◌, Bool, ℕ, ◌++◌, ◌+◌, ◌-◌, ◌≤◌, ◌<◌, zero, suc, ap, sym, ◌∙◌, not,
}

unfoldable pub middleware : Handler → Handler
middleware next x =
    let y =
      if equal x.method (codes "GET") then x else http_error (codes "Method not allowed") 405 x in
    next
      (record y { header = set_field (codes "X-Content-Type-Options") (codes "nosniff") y.header })

-- `strings.HasPrefix(s, prefix)`.
unfoldable pub has_prefix : Bytes → Bytes → Bool
has_prefix s [] = true
has_prefix [] (b ∷ prefix) = false
has_prefix (a ∷ s) (b ∷ prefix) = a == b && has_prefix s prefix

-- `path.Clean`, on the elements, the last one kept first.
unfoldable pub push_element : Bool → Bytes → List Bytes → List Bytes
push_element rooted p [] = if rooted && equal p (codes "..") then [] else p ∷ []
push_element rooted p (q ∷ kept) =
    if equal p (codes "..") && not (equal q (codes "..")) then kept else p ∷ q ∷ kept

unfoldable pub clean_elements : Bool → List Bytes → List Bytes → List Bytes
unfolding push_element
clean_elements rooted [] kept = kept
clean_elements rooted (p ∷ ps) kept =
    clean_elements rooted ps
      (if equal p [] || equal p (codes ".") then kept else push_element rooted p kept)

unfoldable pub is_rooted : Bytes → Bool
is_rooted [] = false
is_rooted (a ∷ s) = a == b'/'

unfoldable pub put_root : Bool → Bytes → Bytes
put_root true s = b'/' ∷ s
put_root false [] = codes "."
put_root false (a ∷ s) = a ∷ s

unfoldable pub clean : Bytes → Bytes
unfolding clean_elements is_rooted put_root
clean s =
    put_root (is_rooted s)
      (join (reverse (clean_elements (is_rooted s) (split b'/' s) [])) (codes "/"))

-- The loop over the parts of the path.
unfoldable pub restrict_parts : Bytes → Handler → List Bytes → Handler
restrict_parts prefix next [] x = next x
restrict_parts prefix next (p ∷ ps) x =
    let rest = restrict_parts prefix next ps x in
    if has_prefix p prefix then http_error (codes "Not Found") 404 x else rest

unfoldable pub restrict_prefix : Bytes → Handler → Handler
unfolding restrict_parts
restrict_prefix prefix next x = restrict_parts prefix next (split b'/' (clean x.path)) x

-- The Caddy module: `Validate` sets the default, `ServeHTTP` takes the path as it is.
unfoldable pub validate : Bytes → Bytes
validate prefix = if equal prefix [] then codes "." else prefix

unfoldable pub caddy_serve_http : Bytes → Handler → Handler
unfolding restrict_parts
caddy_serve_http prefix next x = restrict_parts prefix next (split b'/' x.path) x
