-- ===== src/Http/Middleware/Restrict.antt =====
-- chapter9/middleware.go and caddy/caddy-restrict-prefix/restrict_prefix.go: which paths are refused.
use networking_in_go.Go.Fields.{split, Free}
use networking_in_go.Go.Fields.Split.{split-append, split_front}
use networking_in_go.Http.Exchange.{Exchange, Handler, http_error}
use networking_in_go.Http.Middleware.{
  has_prefix, restrict_parts, restrict_prefix, caddy_serve_http, clean,
}
use networking_in_go.Prelude.{
  Bytes, codes, All, arith, Bool-cases, [], ◌∷◌, true, false, refl, inl, inr, List, ◌≡◌, ◌++◌, ap,
  ◌∙◌,
}

pub has_prefix-append : (prefix t : Bytes) → has_prefix (prefix ++ t) prefix ≡ true
unfolding has_prefix
has_prefix-append [] t = refl
has_prefix-append (b ∷ prefix) t = ground (arith, has_prefix-append prefix t)

pub has_prefix_sound :
    (s prefix : Bytes) → has_prefix s prefix ≡ true → (t : Bytes) × (s ≡ prefix ++ t)
unfolding has_prefix
has_prefix_sound s [] h = (s, refl)
has_prefix_sound [] (b ∷ prefix) h = cc
has_prefix_sound (a ∷ s) (b ∷ prefix) h =
    let (t, e) = has_prefix_sound s prefix (ground arith) in
    let f : a ≡ b = ground arith in (t, rw (e, f) refl)

-- One part that begins with the prefix is enough.
restrict_hit :
    (prefix : Bytes) (next : Handler) (ps : List Bytes) (p : Bytes) (qs : List Bytes) (x : Exchange)
    → has_prefix p prefix ≡ true
    → restrict_parts prefix next (ps ++ p ∷ qs) x ≡ http_error (codes "Not Found") 404 x
unfolding restrict_parts
restrict_hit prefix next [] p qs x h = rw h refl
restrict_hit prefix next (q ∷ ps) p qs x h = elim (Bool-cases (has_prefix q prefix)) [
  | inl e ↦ rw e refl
  | inr e ↦ rw e (restrict_hit prefix next ps p qs x h)
]

abbrev pub Misses : Bytes → Bytes → Type 0
Misses prefix p = has_prefix p prefix ≡ false

pub restrict_miss :
    (prefix : Bytes) (next : Handler) (ps : List Bytes) (x : Exchange)
    → All (Misses prefix) ps
    → restrict_parts prefix next ps x ≡ next x
unfolding restrict_parts
restrict_miss prefix next [] x h = refl
restrict_miss prefix next (p ∷ ps) x h = rw h.0 (restrict_miss prefix next ps x h.1)

restrict_split :
    (prefix : Bytes) (next : Handler) (a t : Bytes) (x : Exchange)
    → Free b'/' prefix
    → restrict_parts prefix next (split b'/' (a ++ b'/' ∷ (prefix ++ t))) x
      ≡ http_error (codes "Not Found") 404 x
restrict_split prefix next a t x f =
    let (r, ps, e) = split_front b'/' prefix t f in
    rw (split-append b'/' a (prefix ++ t), e)
      (restrict_hit prefix next (split b'/' a) (prefix ++ r) ps x (has_prefix-append prefix r))

-- The Caddy module refuses a path in which the prefix follows a slash: it answers with 404, and
-- `next` is not called. The prefix holds no slash.
pub caddy_serve_http_refuses :
    (prefix : Bytes) (next : Handler) (a t : Bytes) (x : Exchange)
    → Free b'/' prefix
    → x.path ≡ a ++ b'/' ∷ (prefix ++ t)
    → caddy_serve_http prefix next x ≡ http_error (codes "Not Found") 404 x
unfolding caddy_serve_http
caddy_serve_http_refuses prefix next a t x f e =
    ap (λ s. restrict_parts prefix next (split b'/' s) x) e ∙ restrict_split prefix next a t x f

-- The RestrictPrefix of chapter9 refuses a path in which, once it is cleaned, the prefix follows a
-- slash: it answers with 404, and `next` is not called. The prefix holds no slash.
pub restrict_prefix_refuses :
    (prefix : Bytes) (next : Handler) (a t : Bytes) (x : Exchange)
    → Free b'/' prefix
    → clean x.path ≡ a ++ b'/' ∷ (prefix ++ t)
    → restrict_prefix prefix next x ≡ http_error (codes "Not Found") 404 x
unfolding restrict_prefix
restrict_prefix_refuses prefix next a t x f e =
    ap (λ s. restrict_parts prefix next (split b'/' s) x) e ∙ restrict_split prefix next a t x f
