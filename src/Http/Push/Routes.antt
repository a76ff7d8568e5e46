-- ===== src/Http/Push/Routes.antt =====
-- chapter9/push.go: which handler gets which path.
use networking_in_go.Http.Exchange.{Exchange, Handler}
use networking_in_go.Http.Methods.{serve_http}
use networking_in_go.Http.Middleware.{has_prefix}
use networking_in_go.Http.Middleware.Restrict.{has_prefix_sound}
use networking_in_go.Http.Mux.Clean.{
  equal_snoc, nil_differs, begins_rooted, clean_path_slash, path_of_clean,
}
use networking_in_go.Http.Mux.{
  match, exact, longest, serve_mux, clean_path, ends_in_slash, is_some, lacks_slash, serve_found,
  decide,
}
use networking_in_go.Http.Push.{Site, static, only_get, index, index2, routes, serve_site}
use networking_in_go.Prelude.{
  Bytes, codes, equal, equal_sound, equal_self, Bool-cases, arith, none, some, [], ◌∷◌, true, false,
  refl, inl, inr, Option, ◌≡◌, Bool, ℕ, ◌++◌, ap, sym, ◌∙◌, if◌then◌else◌, subst, ◌||◌, not, ◌&&◌,
  ap₂,
}

-- The handler for a path, in an order of tests without a search.
abbrev pub chosen : Site → Bytes → Bytes → Option Handler
chosen site files path =
    if has_prefix path (codes "/static/")
    then some (static site)
    else if equal (codes "/2") path
    then some (serve_http (only_get (index2 site files)))
    else if has_prefix path (codes "/")
    then some (serve_http (only_get (index site files)))
    else none

-- The patterns.
abbrev pub known : Bytes → Bool
known path = equal (codes "/static/") path || equal (codes "/") path || equal (codes "/2") path

abbrev Chosen : Site → Bytes → Bytes → Type 0
Chosen site files path = match path (routes site files) ≡ chosen site files path

static-Chosen : (site : Site) (files t : Bytes) → Chosen site files (codes "/static/" ++ t)
unfolding match exact longest routes has_prefix ends_in_slash equal
static-Chosen site files [] = refl
static-Chosen site files (c ∷ t) = refl

-- A path that does not begin with "/static/" is not that.
not_static :
    (path : Bytes)
    → has_prefix path (codes "/static/") ≡ false
    → equal (codes "/static/") path ≡ false
unfolding has_prefix
not_static path h = elim (Bool-cases (equal (codes "/static/") path)) [
  | inl e ↦
      let k : has_prefix (codes "/static/") (codes "/static/") ≡ false =
        subst (λ z. has_prefix z (codes "/static/") ≡ false)
          (sym (equal_sound (codes "/static/") path e)) h in
      cc
  | inr e ↦ e
]

module _ (site : Site) (files : Bytes) where
  index-Chosen : Chosen site files (codes "/")
  unfolding match exact longest routes has_prefix ends_in_slash equal
  index-Chosen = refl

  index2-Chosen : Chosen site files (codes "/2")
  unfolding match exact longest routes has_prefix ends_in_slash equal
  index2-Chosen = refl

  routes-Chosen :
      (path : Bytes)
      → has_prefix path (codes "/static/") ≡ false
      → equal (codes "/") path ≡ false
      → equal (codes "/2") path ≡ false
      → Chosen site files path
  unfolding match exact longest routes ends_in_slash
  routes-Chosen path h e f = elim (Bool-cases (has_prefix path (codes "/"))) [
    | inl g ↦ rw (not_static path h, e, f, h, g) refl
    | inr g ↦ rw (not_static path h, e, f, h, g) refl
  ]

  pub match-routes : (path : Bytes) → Chosen site files path
  match-routes path = elim (Bool-cases (has_prefix path (codes "/static/"))) [
    | inl e ↦
        let (t, f) = has_prefix_sound path (codes "/static/") e in
        subst (Chosen site files) (sym f) (static-Chosen site files t)
    | inr e ↦ elim (Bool-cases (equal (codes "/") path)) [
      | inl f ↦ subst (Chosen site files) (equal_sound (codes "/") path f) index-Chosen
      | inr f ↦ elim (Bool-cases (equal (codes "/2") path)) [
        | inl g ↦ subst (Chosen site files) (equal_sound (codes "/2") path g) index2-Chosen
        | inr g ↦ routes-Chosen path e f g
      ]
    ]
  ]

  pub is_some-exact : (path : Bytes) → is_some (exact path (routes site files)) ≡ known path
  unfolding exact routes is_some
  is_some-exact path = elim (Bool-cases (equal (codes "/static/") path)) [
    | inl e ↦ rw e refl
    | inr e ↦ elim (Bool-cases (equal (codes "/") path)) [
      | inl f ↦ rw (e, f) refl
      | inr f ↦ elim (Bool-cases (equal (codes "/2") path)) [
        | inl g ↦ rw (e, f, g) refl
        | inr g ↦ rw (e, f, g) refl
      ]
    ]
  ]

  pub lacks_slash-routes :
      (path : Bytes)
      → lacks_slash path (routes site files) ≡ (not (known path) && known (path ++ codes "/"))
  unfolding lacks_slash
  lacks_slash-routes path = rw (is_some-exact path, is_some-exact (path ++ codes "/")) refl

ends_otherwise : (path : Bytes) → equal (codes "/2") (path ++ codes "/") ≡ false
unfolding equal
ends_otherwise [] = refl
ends_otherwise (a ∷ []) = ground arith
ends_otherwise (a ∷ b ∷ []) = ground arith
ends_otherwise (a ∷ b ∷ c ∷ path) = ground arith

or_false : (b c : Bool) → c ≡ false → (b || c || false) ≡ b
or_false true c e = refl
or_false false c e = rw e refl

and_false : (b : Bool) → (b && false) ≡ false
and_false true = refl
and_false false = refl

known_slash :
    (c : ℕ) (path : Bytes) → known (c ∷ path ++ codes "/") ≡ equal (codes "/static") (c ∷ path)
known_slash c path =
    rw
      (
        equal_snoc b'/' (codes "/static") (c ∷ path),
        equal_snoc b'/' [] (c ∷ path),
        ends_otherwise (c ∷ path),
      )
      (or_false _ _ (nil_differs c path))

abbrev LacksSlash : Bytes → Type 0
LacksSlash path = (not (known path) && known (path ++ codes "/")) ≡ equal (codes "/static") path

static_lacks : LacksSlash (codes "/static")
unfolding equal
static_lacks = refl

-- Of the paths that are not empty, "/static" alone lacks a slash.
slash_only : (c : ℕ) (path : Bytes) → LacksSlash (c ∷ path)
slash_only c path = elim (Bool-cases (equal (codes "/static") (c ∷ path))) [
  | inl e ↦ subst LacksSlash (equal_sound (codes "/static") (c ∷ path) e) static_lacks
  | inr e ↦ rw (known_slash c path, e) (and_false _)
]

-- What a path that needs no cleaning is answered with.
abbrev pub answer : Site → Bytes → Handler
answer site files x =
    if equal (codes "/static") x.path
    then site.redirect (codes "/static/") x
    else if has_prefix x.path (codes "/static/")
    then static site x
    else if equal (codes "/2") x.path
    then serve_http (only_get (index2 site files)) x
    else serve_http (only_get (index site files)) x

module _ (site : Site) (files : Bytes) (x : Exchange) where
  abbrev decided : Bool → Option Handler → Exchange
  decided lacks found = decide site.redirect x.path lacks found x

  decided_found :
      has_prefix x.path (codes "/") ≡ true
      → equal (codes "/static") x.path ≡ false
      → decided false (chosen site files x.path) ≡ answer site files x
  unfolding decide serve_found
  decided_found e f = elim (Bool-cases (has_prefix x.path (codes "/static/"))) [
    | inl g ↦ rw (f, equal_self x.path, g) refl
    | inr g ↦ elim (Bool-cases (equal (codes "/2") x.path)) [
      | inl h ↦ rw (f, equal_self x.path, g, h) refl
      | inr h ↦ rw (f, equal_self x.path, g, h, e) refl
    ]
  ]

  decided-answer :
      has_prefix x.path (codes "/") ≡ true
      → decided (equal (codes "/static") x.path) (chosen site files x.path) ≡ answer site files x
  unfolding decide serve_found
  decided-answer e = elim (Bool-cases (equal (codes "/static") x.path)) [
    | inl f ↦
        rw f (
          ap (λ z. site.redirect (z ++ codes "/") x) (sym (equal_sound (codes "/static") x.path f)))
    | inr f ↦ rw f (rw f at (decided_found e f))
  ]

  abbrev Answers : Bytes → Type 0
  Answers path =
      decide site.redirect path (lacks_slash path (routes site files))
        (match path (routes site files)) x
      ≡ answer site files x

  answers : (s : Bytes) → x.path ≡ b'/' ∷ s → Answers x.path
  answers s e =
      let f : lacks_slash x.path (routes site files) ≡ equal (codes "/static") x.path =
        lacks_slash-routes site files x.path ∙ subst LacksSlash (sym e) (slash_only b'/' s) in
      ap₂ decided f (match-routes site files x.path) ∙ decided-answer (begins_rooted x.path s e)

-- For a path that is clean, "/static" is sent to "/static/", and every other path is served by the handler
-- for "/static/" if it begins with that, by the second page's for "/2", and by the first page's else.
pub serve_site-chosen :
    (site : Site) (files : Bytes) (x : Exchange)
    → clean_path x.path ≡ x.path
    → serve_site site files x ≡ answer site files x
unfolding serve_site serve_mux
serve_site-chosen site files x h =
    let (s, e) = clean_path_slash x.path in
    subst (Answers site files x) (sym (path_of_clean x h)) (answers site files x s (sym h ∙ e))
