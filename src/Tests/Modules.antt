-- ===== src/Tests/Modules.antt =====
-- Tests of the Caddy module: a configuration with no prefix, and a path with a hidden element.
use networking_in_go.Caddy.{CaddyHandler, load_module, serve_http}
use networking_in_go.Caddy.Restricted.{FirstHit, load_module-serve_http}
use networking_in_go.Go.Fields.{split}
use networking_in_go.Http.Exchange.{Exchange, http_error, write}
use networking_in_go.Http.Middleware.{validate}
use networking_in_go.Http.Middleware.Restrict.{Misses}
use networking_in_go.Prelude.{Bytes, codes, All, [], ◌∷◌, ◌≡◌, ◌⊎◌, none, some, false, ℕ}

abbrev hidden : Exchange
hidden = record {
  method = codes "GET";
  path = codes "/a/.git";
  unread = [];
  body_fails = false;
  closed = false;
  header = [];
  head = none;
  body = [];
}

abbrev logger : ℕ
logger = 7

abbrev greet : CaddyHandler Bytes
greet x = (write (codes "hello") x, some (codes "no more"))

load_module-serve_http_example :
    (All (Misses (validate [])) (split b'/' hidden.path)
      × (serve_http (load_module none logger) greet hidden
          ≡ ((greet hidden).0, (greet hidden).1, [])))
    ⊎ ((h : FirstHit (validate []) (split b'/' hidden.path)) × (serve_http
            (load_module none 7)
            greet
            hidden
          ≡ (
            http_error (codes "Not Found") 404 hidden,
            none,
            record { logger = logger; part = h.part; path = codes "/a/.git" } ∷ [],
          )))
load_module-serve_http_example = load_module-serve_http none logger greet hidden
