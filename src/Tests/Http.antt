-- ===== src/Tests/Http.antt =====
-- Tests of the HTTP handlers.
use mathlib.Core.List.{Permᴰ}
use networking_in_go.Go.Fields.{split, join}
use networking_in_go.Http.Escape.{IsInert, template_escape, template_byte, escape_byte}
use networking_in_go.Http.Exchange.{
  Exchange, write, write_header, http_error, status_of, first_head, drain, read_all,
}
use networking_in_go.Http.Handlers.{default_handler, respond, greet, greeting}
use networking_in_go.Http.Handlers.Greeting.{default_handler-IsInert}
use networking_in_go.Http.Methods.{
  before, Methods, lookup, serve_http, default_methods, allowed_methods, get_handler, post_handler,
}
use mathlib.Core.Quot
use networking_in_go.Http.Methods.Order.{Distinct, lookup_perm}
use networking_in_go.Http.Methods.Map.{MethodsMap, serve_http-lookup}
use networking_in_go.Http.Middleware.{restrict_prefix, clean, middleware}
use networking_in_go.Http.Middleware.Passing.{middleware-default_handler, NowhereIn}
use networking_in_go.Http.Middleware.Restrict.{restrict_prefix_refuses}
use networking_in_go.Http.Wide.{header_call, wide_event_log}
use networking_in_go.Http.Wide.Log.{wide_event_log_differs}
use networking_in_go.Prelude.{
  Bytes, codes, equal, All, arith, none, some, [], ◌∷◌, true, false, refl, ◌≡◌, ◌++◌,
}

abbrev request : Bytes → Bytes → Bytes → Exchange
request method path b = record {
  method = method;
  path = path;
  unread = b;
  body_fails = false;
  closed = false;
  header = [];
  head = none;
  body = [];
}

abbrev post : Exchange
post = request (codes "POST") (codes "/") (codes "<b>")

abbrev options : Exchange
options = request (codes "OPTIONS") (codes "/") []

abbrev at : Bytes → Exchange
at path = request (codes "GET") path []

greets : (default_handler post).body ≡ codes "Hello, &lt;b&gt;!"
unfolding default_handler respond greet greeting template_escape template_byte escape_byte write
    write_header http_error first_head drain read_all equal
greets = refl

allows : allowed_methods default_methods ≡ codes "GET, POST"
unfolding allowed_methods default_methods join before
allows = refl

cleans : clean (codes "/a/./b/../../c//d/") ≡ codes "/c/d"
unfolding clean split join equal
cleans = refl

default_handler-IsInert_example :
    All IsInert (default_handler post).body
    × ((default_handler post).unread ≡ [])
    × ((default_handler post).closed ≡ true)
default_handler-IsInert_example = default_handler-IsInert post tt

abbrev swapped : Methods
swapped = (codes "POST", some post_handler) ∷ (codes "GET", some get_handler) ∷ []

distinct : Distinct default_methods
unfolding default_methods Distinct lookup equal
distinct = (refl, (refl, tt))

swapped_apart : Distinct swapped
unfolding Distinct lookup equal
swapped_apart = (refl, (refl, tt))

same_look_up : (k : Bytes) → lookup k default_methods ≡ lookup k swapped
unfolding default_methods
same_look_up = (lookup_perm (Permᴰ.swap refl refl) distinct).1

serve_http-lookup_example : serve_http default_methods options ≡ serve_http swapped options
serve_http-lookup_example =
    serve_http-lookup default_methods swapped options distinct swapped_apart same_look_up

abbrev map_of : (ms : Methods) → Distinct ms → MethodsMap
map_of ms d = Quot.mk (ms, d)

restrict_prefix_refuses_example :
    restrict_prefix (codes ".") default_handler (at (codes "/a/../.git"))
    ≡ http_error (codes "Not Found") 404 (at (codes "/a/../.git"))
unfolding clean split join equal
restrict_prefix_refuses_example =
    restrict_prefix_refuses (codes ".") default_handler [] (codes "git") (at (codes "/a/../.git"))
      (ground arith) refl

middleware-default_handler_example :
    let y = middleware default_handler post in
    (status_of y.head ≡ 405) × (y.body ≡ codes "Method not allowed\n" ++ greeting (codes "<b>"))
middleware-default_handler_example = middleware-default_handler post refl refl refl refl

wide_event_log_differs_example :
    let ((status, n), y) = wide_event_log post (header_call 200 ∷ header_call 500 ∷ []) in
    let ((status', n'), y') = wide_event_log post [] in
    ((status ≡ 500) × (status_of y.head ≡ 200)) × ((status' ≡ 0) × (status_of y'.head ≡ 200))
wide_event_log_differs_example =
    wide_event_log_differs post 200 500 [] refl (omega arith) (omega arith) tt

bare-NowhereIn : NowhereIn (codes ".") (codes "a")
bare-NowhereIn [] t e = ground arith
bare-NowhereIn (b ∷ []) t e = ground arith
bare-NowhereIn (b ∷ c ∷ a) t e = ground arith
