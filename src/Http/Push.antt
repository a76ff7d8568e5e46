-- ===== src/Http/Push.antt =====
-- chapter9/push.go: the handlers that `run` registers, and their multiplexer. How a file is sent, a client
-- is sent to another path and a resource is pushed, net/http and the files decide. The log is left out.
pub mod Elements
pub mod Hidden
pub mod Routes
use networking_in_go.Http.Exchange.{Exchange, Handler, http_error}
use networking_in_go.Http.Methods.{Methods, serve_http}
use networking_in_go.Http.Middleware.{restrict_prefix, clean}
use networking_in_go.Http.Mux.{Route, serve_mux, strip_prefix, rooted}
use networking_in_go.Prelude.{
  Bytes, codes, none, some, [], ◌∷◌, true, false, refl, inl, inr, Option, List, ◌≡◌, Bool, ℕ, ◌++◌,
  ◌+◌, ◌-◌, ◌≤◌, ◌<◌, zero, suc, ap, sym, ◌∙◌,
}

-- What http.Dir(files) has at a path: the contents of a file, or of a directory the names, those that begin with
-- a dot too, and its index.html.
pub data Opened : Type 0 where
  missing : Opened
  file : Bytes → Opened
  directory : List Bytes → Option Bytes → Opened

pub record Site : Type 0 where
  pub open_file : Bytes → Opened  -- by the cleaned path, which begins with a slash
  pub send : Bytes → Opened → Handler  -- a file, a page for a directory or its index.html, or an error
  pub serve_file : Bytes → Handler  -- http.ServeFile, by the file's name
  pub redirect : Bytes → Handler
  pub push : Option (Bytes → Handler)  -- if the http.ResponseWriter is an http.Pusher

-- `http.FileServer(http.Dir(files))`.
unfoldable pub file_server : Site → Handler
unfolding rooted
file_server site x =
    let path = rooted x.path in
    site.send (clean path) (site.open_file (clean path)) (record x { path = path })

-- The handler for "/static/".
unfoldable pub static : Site → Handler
static site = strip_prefix (codes "/static/") (restrict_prefix (codes ".") (file_server site))

-- `filepath.Join(files, name)`, for a name that is not empty.
unfoldable pub join_path : Bytes → Bytes → Bytes
join_path [] name = clean name
join_path (c ∷ dir) name = clean ((c ∷ dir) ++ b'/' ∷ name)

abbrev pub targets : List Bytes
targets = codes "/static/style.css" ∷ codes "/static/hiking.svg" ∷ []

push_each : (Bytes → Handler) → List Bytes → Handler
push_each push [] x = x
push_each push (target ∷ rest) x = push_each push rest (push target x)

-- What the first page does if the writer can push.
push_targets : Option (Bytes → Handler) → Handler
unfolding push_each
push_targets none x = x
push_targets (some push) x = push_each push targets x

unfoldable pub index : Site → Bytes → Handler
unfolding push_targets join_path
index site files x =
    site.serve_file (join_path files (codes "index.html")) (push_targets site.push x)

unfoldable pub index2 : Site → Bytes → Handler
unfolding join_path
index2 site files x = site.serve_file (join_path files (codes "index2.html")) x

-- A `Methods` with a GET handler only.
unfoldable pub only_get : Handler → Methods
only_get h = (codes "GET", some h) ∷ []

unfoldable pub routes : Site → Bytes → List Route
unfolding static only_get index index2
routes site files =
    (codes "/static/", static site)
    ∷ (codes "/", serve_http (only_get (index site files)))
    ∷ (codes "/2", serve_http (only_get (index2 site files)))
    ∷ []

-- The handler of the server.
unfoldable pub serve_site : Site → Bytes → Handler
unfolding routes
serve_site site files = serve_mux site.redirect (routes site files)
