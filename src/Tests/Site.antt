-- ===== src/Tests/Site.antt =====
-- Tests of the pushing server, of its end, of the backend and of the monitor.
use networking_in_go.Go.Fields.{join, split}
use networking_in_go.Http.Exchange.{
  Exchange, Handler, write, write_header, http_error, status_of, first_head, set_field, drain,
}
use networking_in_go.Http.Methods.{serve_http, lookup, allowed_methods}
use networking_in_go.Http.Middleware.{has_prefix, clean, is_rooted, restrict_prefix}
use networking_in_go.Http.Mux.{
  clean_path, rooted, ends_in_slash, serve_mux, exact, match, longest, strip_prefix, trim_prefix,
  decide, path_of, serve_found, lacks_slash,
}
use networking_in_go.Http.Push.{
  Site, Opened, missing, file, directory, serve_site, routes, static, file_server, index, index2,
  only_get, join_path,
}
use networking_in_go.Http.Push.Elements.{IsVisible}
use networking_in_go.Http.Push.Hidden.{SameVisible, serve_site_hides}
use networking_in_go.Shutdown.{
  State, serving, returned, watching, shutting, finished, Reach, start, later, initial, tls_enabled,
  settle, Step, connects, disconnects, interrupted, closed, failed, shut_down, returns,
}
use networking_in_go.Shutdown.Graceful.{Steps, stay, go, run-graceful, run-returned, run-Steps}
use networking_in_go.Monitor.{Ends, serve, tee_read, multi_write}
use networking_in_go.Monitor.Logged.{Logged, serve-Logged}
use networking_in_go.Sinks.{write_sink}
use networking_in_go.Prelude.{
  arith, Bytes, codes, equal, All, if◌then◌else◌, none, some, [], ◌∷◌, true, false, refl, List,
  Option, ◌≡◌, ℕ, ◌++◌, ◌+◌, ◌≤◌,
}

abbrev get : Bytes → Exchange
get path = record {
  method = codes "GET";
  path = path;
  unread = [];
  body_fails = false;
  closed = false;
  header = [];
  head = none;
  body = [];
}

-- Files that hold their names, in a directory that has a hidden one, and the same with a secret in that.
abbrev names_only : Bytes → Opened
names_only path =
    if equal path (codes "/d") then directory (codes "a" ∷ codes ".b" ∷ []) none else file path

abbrev with_secret : Bytes → Opened
with_secret path = if has_prefix path (codes "/.") then file (codes "secret") else names_only path

abbrev send : Bytes → Opened → Handler
send path o = elim o [
  | missing ↦ http_error (codes "404 page not found") 404
  | file b ↦ write b
  | directory names index ↦ elim index [ none ↦ write (join names (codes "\n")) | some b ↦ write b ]
]

abbrev site : Site
site = record {
  open_file = names_only;
  send = send;
  serve_file = write;
  redirect =
      λ path x. write_header 301 (record x { header = set_field (codes "Location") path x.header });
  push = some (λ path x. write (codes "pushed " ++ path ++ codes "; ") x);
}

join_visible :
    (names : List Bytes)
    → All IsVisible names
    → has_prefix (join names (codes "/")) (codes ".") ≡ false
unfolding join has_prefix
join_visible [] h = refl
join_visible (q ∷ []) h = h.0.1
join_visible ([] ∷ r ∷ qs) h = refl
join_visible ((c ∷ q) ∷ r ∷ qs) h = h.0.1

same_visible : SameVisible names_only with_secret
unfolding has_prefix
same_visible path (names, h, e) = rw (e, join_visible names h) refl

abbrev Served : Bytes → Bytes → ℕ → Type 0
Served path b status =
    let x = serve_site site (codes "files") (get path) in (x.body ≡ b) × (status_of x.head ≡ status)

pushes_first :
    Served
      (codes "/")
      (codes "pushed /static/style.css; pushed /static/hiking.svg; files/index.html")
      200
unfolding serve_site routes serve_mux exact match longest clean_path rooted ends_in_slash decide
    path_of lacks_slash serve_found static index index2 only_get join_path clean is_rooted
    has_prefix serve_http lookup allowed_methods drain equal write write_header first_head join
    split
pushes_first = (refl, refl)

hides_dots : Served (codes "/static/a/.b") (codes "Not Found\n") 404
unfolding serve_site routes serve_mux exact match longest clean_path rooted ends_in_slash decide
    path_of lacks_slash serve_found static index index2 only_get join_path clean is_rooted
    has_prefix strip_prefix trim_prefix restrict_prefix file_server http_error set_field equal write
    write_header first_head join split
hides_dots = (refl, refl)

serves_static : Served (codes "/static/a/b") (codes "/a/b") 200
unfolding serve_site routes serve_mux exact match longest clean_path rooted ends_in_slash decide
    path_of lacks_slash serve_found static index index2 only_get join_path clean is_rooted
    has_prefix strip_prefix trim_prefix restrict_prefix file_server equal write write_header
    first_head join split
serves_static = (refl, refl)

-- The listing of the directory has the hidden name.
lists_hidden : Served (codes "/static/d/") (codes "a\n.b") 200
unfolding serve_site routes serve_mux exact match longest clean_path rooted ends_in_slash decide
    path_of lacks_slash serve_found static index index2 only_get join_path clean is_rooted
    has_prefix strip_prefix trim_prefix restrict_prefix file_server equal write write_header
    first_head join split
lists_hidden = (refl, refl)

serve_site_hides_example :
    serve_site site (codes "files") (get (codes "/static/.b"))
    ≡ serve_site
        (record site { open_file = with_secret })
        (codes "files")
        (get (codes "/static/.b"))
serve_site_hides_example =
    serve_site_hides site with_secret same_visible (codes "files") (get (codes "/static/.b"))

clean_two : clean_path (codes "/2") ≡ codes "/2"
unfolding clean_path rooted ends_in_slash clean is_rooted has_prefix equal join split
clean_two = refl

-- A run of the server: a connection, a signal, and the end of both.
abbrev quiet : State
quiet = record { caller = serving; watcher = watching; tls = true; connections = 0 }

abbrev signalled : State
signalled = record quiet { watcher = shutting }

abbrev ended : State
ended = record { caller = returned none; watcher = finished; tls = true; connections = 0 }

to_signalled : Reach (codes "c") (codes "k") signalled
unfolding initial tls_enabled equal
to_signalled = later start (interrupted refl)

Steps-signalled : Steps 3 signalled ended
unfolding settle
Steps-signalled =
    go (closed refl (λ e. cc)) (go (shut_down refl refl) (go (returns refl refl) stay))

to_ended : Reach (codes "c") (codes "k") ended
unfolding settle
to_ended =
    later (later (later to_signalled (closed refl (λ e. cc))) (shut_down refl refl))
      (returns refl refl)

run-graceful_example : (ended.watcher ≡ finished) × (ended.connections ≡ 0)
run-graceful_example = run-graceful to_ended refl

run-Steps_example : 3 ≤ 0 + 3
run-Steps_example = run-Steps Steps-signalled (λ e. cc)

ended_stuck : (t : State) → ¬ Step ended t
ended_stuck t (connects e f) = cc
ended_stuck t (disconnects e) = ground arith
ended_stuck t (interrupted e) = cc
ended_stuck t (closed e f) = cc
ended_stuck t (failed r e) = cc
ended_stuck t (shut_down e f) = cc
ended_stuck t (returns e f) = cc

abbrev quiet_ends : Ends
quiet_ends = record {
  conn = record { taken = []; room = 100 };
  out = record { taken = []; room = 100 };
}

-- The output that the example's comment gives.
monitors :
    (serve (codes "Test\n") none quiet_ends).out.taken ≡ codes "monitor: Test\nmonitor: Test\n"
unfolding serve tee_read multi_write write_sink
monitors = refl

serve-Logged_example : Logged (codes "Test\n") quiet_ends (serve (codes "Test\n") none quiet_ends)
serve-Logged_example = serve-Logged (codes "Test\n") none quiet_ends

run-returned_example : (r : Option Bytes) × (ended.caller ≡ returned r)
run-returned_example = run-returned ended (λ e. cc) ended_stuck
