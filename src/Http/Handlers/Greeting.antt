-- ===== src/Http/Handlers/Greeting.antt =====
-- chapter9/handler.go: what DefaultHandler sends.
use networking_in_go.Http.Escape.{
  IsInert, template_escape, template_escape-IsInert, All-IsInert-append,
}
use networking_in_go.Http.Exchange.{Exchange, write, http_error, drain, read_all, write_header}
use networking_in_go.Http.Handlers.{greeting, greet, respond, default_handler, Option, some}
use networking_in_go.Prelude.{
  Bytes, codes, equal, All, arith, Bool-cases, ◌≡◌, [], true, inl, refl, inr, none,
}

greeting-IsInert : (b : Bytes) → All IsInert (greeting b)
unfolding greeting
greeting-IsInert b =
    All-IsInert-append (codes "Hello, ") _ (ground arith) (
      All-IsInert-append (template_escape b) (codes "!") (template_escape-IsInert b) (ground arith))

greet-IsInert :
    (b : Option Bytes) (x : Exchange) → All IsInert x.body → All IsInert (greet (b, x)).body
unfolding greet http_error write write_header
greet-IsInert none x h = All-IsInert-append x.body _ h (ground arith)
greet-IsInert (some b) x h = All-IsInert-append x.body (greeting b) h (greeting-IsInert b)

respond-IsInert : (x : Exchange) → All IsInert x.body → All IsInert (respond x).body
unfolding respond http_error write write_header read_all
respond-IsInert x h = elim (Bool-cases (equal x.method (codes "GET"))) [
  | inl e ↦ rw e (All-IsInert-append x.body _ h (greeting-IsInert (codes "friend")))
  | inr e ↦ elim (Bool-cases (equal x.method (codes "POST"))) [
    | inl f ↦ rw (e, f) (greet-IsInert _ _ h)
    | inr f ↦ rw (e, f) (All-IsInert-append x.body _ h (ground arith))
  ]
]

-- Whatever the method and the request's body, the response's body has no byte that opens or closes
-- a tag or an attribute, if it had none before, and the request's body is drained and closed.
pub default_handler-IsInert :
    (x : Exchange)
    → All IsInert x.body
    → All IsInert (default_handler x).body
      × ((default_handler x).unread ≡ [])
      × ((default_handler x).closed ≡ true)
unfolding default_handler drain
default_handler-IsInert x h = (respond-IsInert x h, refl, refl)
