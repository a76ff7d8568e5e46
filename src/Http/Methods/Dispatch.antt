-- ===== src/Http/Methods/Dispatch.antt =====
-- chapter9/handler.go: DefaultMethodsHandler against DefaultHandler, and the answer to other methods.
use networking_in_go.Http.Escape.{template_escape, escape_string, template_byte, escape_byte}
use networking_in_go.Http.Exchange.{
  Exchange, write, http_error, drain, read_all, write_header, status_of, Header, first_head,
  set_field, add_field,
}
use networking_in_go.Http.Handlers.{greeting, greet, respond, default_handler}
use networking_in_go.Http.Methods.{
  Methods, lookup, allowed_methods, serve_http, dispatch, refuse, default_methods,
  default_methods_handler, post_handler, get_handler, greet_post,
}
use networking_in_go.Prelude.{
  Bytes, codes, equal, if◌then◌else◌, All, arith, none, some, [], ◌∷◌, refl, inl, inr, List, ◌≡◌, ℕ,
  ◌≢◌, ◌⊎◌, Bool-cases, ap,
}

-- A byte that both escape in the same way.
abbrev pub IsCommon : ℕ → Type 0
IsCommon c = (c ≢ 0) × (c ≢ b'+')

template_escape_common : (s : Bytes) → All IsCommon s → template_escape s ≡ escape_string s
unfolding template_escape escape_string template_byte
template_escape_common [] h = refl
template_escape_common (c ∷ s) (h, hs) = rw (template_escape_common s hs) (ground arith)

greet_post-greet :
    (b : Bytes) (x : Exchange) → All IsCommon b → greet_post (some b, x) ≡ greet (some b, x)
unfolding greet_post greet greeting
greet_post-greet b x h = rw (template_escape_common b h) refl

greet_post-read_all :
    (x : Exchange) → All IsCommon x.unread → greet_post (read_all x) ≡ greet (read_all x)
unfolding read_all greet_post greet greeting
greet_post-read_all x h = elim (Bool-cases x.body_fails) [
  | inl e ↦ rw e refl
  | inr e ↦ rw e (greet_post-greet x.unread _ h)
]

-- For a request by GET or POST whose body has neither a zero byte nor a +, DefaultHandler and
-- DefaultMethodsHandler give the same response.
pub default_methods_handler-default_handler :
    (x : Exchange)
    → (x.method ≡ codes "GET") ⊎ (x.method ≡ codes "POST")
    → All IsCommon x.unread
    → default_methods_handler x ≡ default_handler x
unfolding default_methods_handler default_methods serve_http dispatch lookup default_handler respond
    greeting get_handler post_handler equal template_escape template_byte escape_byte
default_methods_handler-default_handler x (inl e) h = rw e refl
default_methods_handler-default_handler x (inr e) h =
    rw e (ap drain (greet_post-read_all (record x { method = codes "POST" }) h))

-- The fields of the response's head, once the handler has returned.
pub sent_fields : Exchange → Header
sent_fields x = elim x.head [ none ↦ x.header | some h ↦ h.fields ]

pub field : Bytes → Header → List Bytes
field k [] = []
field k ((j, vs) ∷ h) = if equal j k then vs else field k h

-- A method that has no entry is answered by 405, except OPTIONS, by 200 with no body. In both cases the
-- Allow header that is sent holds the methods of the map, sorted.
pub serve_http_refused :
    (ms : Methods) (x : Exchange)
    → lookup x.method ms ≡ none
    → x.head ≡ none
    → x.header ≡ []
    → (status_of (serve_http ms x).head ≡ (if equal x.method (codes "OPTIONS") then 200 else 405))
      × (field (codes "Allow") (sent_fields (serve_http ms x)) ≡ allowed_methods ms ∷ [])
unfolding serve_http dispatch refuse http_error write write_header equal first_head sent_fields
    set_field add_field field drain
serve_http_refused ms x e h k = elim (Bool-cases (equal x.method (codes "OPTIONS"))) [
  | inl o ↦ (rw (e, o, h) refl, rw (e, o, h, k) refl)
  | inr o ↦ (rw (e, o, h) refl, rw (e, o, h, k) refl)
]
