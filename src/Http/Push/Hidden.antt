-- ===== src/Http/Push/Hidden.antt =====
-- chapter9/push.go: what the handlers show of the files.
use networking_in_go.Go.Fields.{split}
use networking_in_go.Http.Exchange.{Exchange, Handler}
use networking_in_go.Http.Middleware.{restrict_parts, restrict_prefix, clean, is_rooted, has_prefix}
use networking_in_go.Http.Middleware.Restrict.{Misses}
use networking_in_go.Http.Mux.{
  rooted, strip_prefix, trim_prefix, serve_found, serve_mux, decide, path_of, lacks_slash, match,
}
use networking_in_go.Http.Push.{
  Site, Opened, static, file_server, serve_site, index, index2, routes,
}
use networking_in_go.Http.Push.Routes.{chosen, match-routes, lacks_slash-routes}
use networking_in_go.Http.Push.Elements.{VisiblePath, rooted_visible, unrooted_visible}
use networking_in_go.Prelude.{
  Bytes, codes, Bool-cases, All, [], ◌∷◌, true, false, refl, inl, inr, Option, List, ◌≡◌, Bool, ap,
  sym, ◌∙◌, ◌==◌, arith, ap₂, equal,
}

-- `next` matters only if no part has the prefix.
restrict_parts-agree :
    (prefix : Bytes) (next next' : Handler) (ps : List Bytes) (x : Exchange)
    → (All (Misses prefix) ps → next x ≡ next' x)
    → restrict_parts prefix next ps x ≡ restrict_parts prefix next' ps x
unfolding restrict_parts
restrict_parts-agree prefix next next' [] x h = h tt
restrict_parts-agree prefix next next' (p ∷ ps) x h = elim (Bool-cases (has_prefix p prefix)) [
  | inl e ↦ rw e refl
  | inr e ↦ rw e (restrict_parts-agree prefix next next' ps x (λ k. h (e, k)))
]

-- What the file server opens for a path that RestrictPrefix lets pass.
opened_visible :
    (s : Bytes) → All (Misses (codes ".")) (split b'/' (clean s)) → VisiblePath (clean (rooted s))
unfolding rooted has_prefix is_rooted
opened_visible [] h = unrooted_visible [] refl h
opened_visible (c ∷ s) h = elim (Bool-cases (c == b'/')) [
  | inl e ↦ let f : c ≡ b'/' = ground arith in rw (e, f) (rooted_visible s (rw f at h))
  | inr e ↦ rw e (unrooted_visible (c ∷ s) e h)
]

decide-agree :
    (redirect : Bytes → Handler) (path : Bytes) (lacks : Bool) (found found' : Option Handler)
    (x : Exchange)
    → serve_found found x ≡ serve_found found' x
    → decide redirect path lacks found x ≡ decide redirect path lacks found' x
unfolding decide
decide-agree redirect path true found found' x h = refl
decide-agree redirect path false found found' x h = elim (Bool-cases (equal path x.path)) [
  | inl e ↦ rw e h
  | inr e ↦ rw e refl
]

-- The same at every path without an element that begins with a dot: files with their contents, directories with
-- their names.
abbrev pub SameVisible : (Bytes → Opened) → (Bytes → Opened) → Type 0
SameVisible open_file open_file' =
    (path : Bytes) → VisiblePath path → open_file path ≡ open_file' path

module _ (site : Site) (hidden : Bytes → Opened) (same : SameVisible site.open_file hidden) where
  abbrev other : Site
  other = record site { open_file = hidden }

  restrict_prefix-agree :
      (x : Exchange)
      → restrict_prefix (codes ".") (file_server site) x
        ≡ restrict_prefix (codes ".") (file_server other) x
  unfolding restrict_prefix file_server
  restrict_prefix-agree x =
      restrict_parts-agree (codes ".") (file_server site) (file_server other)
        (split b'/' (clean x.path)) x
        (λ h.
          let path = clean (rooted x.path) in
          ap (λ o. site.send path o (record x { path = rooted x.path }))
            (same path (opened_visible x.path h)))

  static-agree : (x : Exchange) → static site x ≡ static other x
  unfolding static strip_prefix
  static-agree x =
      rw (restrict_prefix-agree (record x { path = trim_prefix x.path (codes "/static/") })) refl

  serve_found-agree :
      (files path : Bytes) (x : Exchange)
      → serve_found (chosen site files path) x ≡ serve_found (chosen other files path) x
  unfolding serve_found index index2
  serve_found-agree files path x = elim (Bool-cases (has_prefix path (codes "/static/"))) [
    | inl e ↦ rw e (static-agree x)
    | inr e ↦ rw e refl
  ]

  abbrev at : Site → Bytes → Bytes → Handler
  at served files path x =
      decide site.redirect path (lacks_slash path (routes served files))
        (match path (routes served files)) x

  at-agree : (files path : Bytes) (x : Exchange) → at site files path x ≡ at other files path x
  at-agree files path x =
      let e = lacks_slash-routes site files path ∙ sym (lacks_slash-routes other files path) in
      ap₂ (λ l found. decide site.redirect path l found x) e (match-routes site files path)
      ∙ decide-agree site.redirect path _ _ _ x (serve_found-agree files path x)
      ∙ ap (λ found. decide site.redirect path (lacks_slash path (routes other files)) found x)
          (sym (match-routes other files path))

  -- What is in a file or directory with an element that begins with a dot in its path has no influence
  -- on what the server answers: two directories that have the same at all other paths give the same
  -- answer to every request. To have the same there, a directory must have the same names in it, also
  -- those that begin with a dot, which its listing may show.
  pub serve_site_hides :
      (files : Bytes) (x : Exchange) → serve_site site files x ≡ serve_site other files x
  unfolding serve_site serve_mux
  serve_site_hides files x = at-agree files (path_of x) x
