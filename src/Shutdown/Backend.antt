-- ===== src/Shutdown/Backend.antt =====
-- chapter10/backend.go: the handler behind Caddy, and `run`, which closes the server on a signal and does
-- not wait. The log is left out.
use networking_in_go.Http.Exchange.{Exchange, Handler, write}
use networking_in_go.Http.Middleware.{has_prefix}
use networking_in_go.Http.Mux.Clean.{equal_snoc, nil_differs, clean_path_slash, path_of_clean}
use networking_in_go.Http.Mux.{
  Route, serve_mux, clean_path, lacks_slash, match, decide, is_some, exact, serve_found, longest,
  ends_in_slash, path_of,
}
use networking_in_go.Shutdown.{settle, ServeError, server_closed, other_error}
use networking_in_go.Prelude.{
  Bytes, codes, none, some, [], ◌∷◌, false, refl, inl, inr, Option, List, ◌≡◌, ◌++◌, sym, ◌∙◌, ap₂,
  subst, equal_self, Bool-cases, equal,
}

abbrev index : Bytes
index =
    codes "<!DOCTYPE html>\n"
    ++ codes "<html lang=\"en\">\n"
    ++ codes "<head>\n"
    ++ codes "<meta charset=\"UTF-8\">\n"
    ++ codes "<title>Caddy Backend Test</title>\n"
    ++ codes "<link href=\"/style.css\" rel=\"stylesheet\">\n"
    ++ codes "</head>\n"
    ++ codes "<body>\n"
    ++ codes "<p><img src=\"/hiking.svg\" alt=\"hiking gopher\"></p>\n"
    ++ codes "</body>\n"
    ++ codes "</html>"

backend_handler : Handler
backend_handler x = write index x

routes : List Route
unfolding backend_handler
routes = (codes "/", backend_handler) ∷ []

-- The handler of the server; the first argument sends the client to another path.
unfoldable pub serve_backend : (Bytes → Handler) → Handler
unfolding routes
serve_backend redirect = serve_mux redirect routes

-- A signal comes, or the server fails; after Close, ListenAndServe returns http.ErrServerClosed.
pub data Event : Type 0 where
  interrupt : Event
  fails : Bytes → Event

-- What ListenAndServe returns, unless it goes on.
unfoldable pub listen_and_serve : List Event → Option ServeError
listen_and_serve [] = none
listen_and_serve (interrupt ∷ rest) = some server_closed
listen_and_serve (fails e ∷ rest) = some (other_error e)

-- What `run` returns, unless it goes on.
unfoldable pub backend_run : List Event → Option (Option Bytes)
unfolding listen_and_serve settle
backend_run events = elim (listen_and_serve events) [ none ↦ none | some e ↦ some (settle e) ]

module _ (redirect : Bytes → Handler) (x : Exchange) where
  backend_lacks : (s : Bytes) → lacks_slash (b'/' ∷ s) routes ≡ false
  unfolding lacks_slash is_some exact routes
  backend_lacks s =
      let e = equal_snoc b'/' [] (b'/' ∷ s) ∙ nil_differs b'/' s in
      elim (Bool-cases (equal (codes "/") (b'/' ∷ s))) [
        | inl f ↦ rw f refl
        | inr f ↦ rw (f, e) refl
      ]

  backend_match : (s : Bytes) → match (b'/' ∷ s) routes ≡ some (write index)
  unfolding match exact longest has_prefix ends_in_slash routes backend_handler
  backend_match s = elim (Bool-cases (equal (codes "/") (b'/' ∷ s))) [
    | inl f ↦ rw f refl
    | inr f ↦ rw f refl
  ]

  abbrev Serves : Bytes → Type 0
  Serves path = decide redirect path (lacks_slash path routes) (match path routes) x ≡ write index x

  decide-write :
      (path : Bytes)
      → path ≡ x.path
      → decide redirect path false (some (write index)) x ≡ write index x
  unfolding decide serve_found
  decide-write path e = rw (e, equal_self x.path) refl

  serves : (path s : Bytes) → path ≡ x.path → path ≡ b'/' ∷ s → Serves path
  serves path s e f =
      ap₂ (λ l m. decide redirect path l m x)
        (subst (λ z. lacks_slash z routes ≡ false) (sym f) (backend_lacks s))
        (subst (λ z. match z routes ≡ some (write index)) (sym f) (backend_match s))
      ∙ decide-write path e

-- A request with a clean path is answered by the page, by status 200 if none was sent before, whatever its
-- method and path are.
pub serve_backend-write :
    (redirect : Bytes → Handler) (x : Exchange)
    → clean_path x.path ≡ x.path
    → serve_backend redirect x ≡ write index x
unfolding serve_backend serve_mux
serve_backend-write redirect x h =
    let (s, e) = clean_path_slash x.path in
    let f = path_of_clean x h in serves redirect x (path_of x) s f (f ∙ (sym h ∙ e))
