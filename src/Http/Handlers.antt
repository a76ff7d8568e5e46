-- ===== src/Http/Handlers.antt =====
-- chapter9/handler.go: DefaultHandler, which greets by a template.
pub mod Greeting
use networking_in_go.Http.Escape.{template_escape}
use networking_in_go.Http.Exchange.{Exchange, Handler, write, http_error, drain, read_all}
use networking_in_go.Prelude.{
  Bytes, codes, equal, if◌then◌else◌, ◌++◌, Option, some, none, [], ◌∷◌, true, false, refl, inl,
  inr, List, ◌≡◌, Bool, ℕ,
}

-- What the template "Hello, {{.}}!" gives for a text.
unfoldable pub greeting : Bytes → Bytes
greeting b = codes "Hello, " ++ template_escape b ++ codes "!"

unfoldable pub greet : Option Bytes × Exchange → Exchange
unfolding greeting
greet (none, x) = http_error (codes "Internal server error") 500 x
greet (some b, x) = write (greeting b) x

-- The `switch` on the method, and what follows it.
unfoldable pub respond : Handler
unfolding greeting greet
respond x =
    if equal x.method (codes "GET")
    then write (greeting (codes "friend")) x
    else if equal x.method (codes "POST")
    then greet (read_all x)
    else http_error (codes "Method not allowed") 405 x

-- The body is drained and closed when the handler returns.
unfoldable pub default_handler : Handler
unfolding respond
default_handler x = drain (respond x)
