-- ===== src/Http/Middleware/Passing.antt =====
-- chapter9/middleware.go and caddy/caddy-restrict-prefix/restrict_prefix.go: which paths are let pass, and
-- what Middleware does with a method that it refuses.
use networking_in_go.Go.Fields.{split}
use networking_in_go.Go.Fields.Split.{split_first, split_cons}
use networking_in_go.Http.Exchange.{
  Exchange, Handler, http_error, read_all, write, write_header, first_head, drain, status_of,
}
use networking_in_go.Http.Handlers.{greeting, greet, respond, default_handler}
use networking_in_go.Http.Middleware.{
  has_prefix, restrict_parts, restrict_prefix, caddy_serve_http, clean, middleware, equal,
}
use networking_in_go.Http.Middleware.Restrict.{has_prefix_sound, Misses, restrict_miss}
use networking_in_go.Http.Middleware.Paths.{split-clean, IsName, All-map, parts_of}
use networking_in_go.Prelude.{
  equal, Bytes, codes, ◌==◌, All, arith, Bool-cases, none, [], ◌∷◌, false, refl, inl, inr, List,
  ◌≡◌, ℕ, ◌++◌, ap, ◌∙◌, ◌≢◌, append_assoc, subst,
}

tail : List Bytes → List Bytes
tail [] = []
tail (p ∷ ps) = ps

-- The prefix follows no slash of the text.
abbrev pub NowhereIn : Bytes → Bytes → Type 0
NowhereIn prefix s = (a t : Bytes) → s ≢ a ++ b'/' ∷ (prefix ++ t)

first-Misses :
    (prefix s : Bytes)
    → ((t : Bytes) → s ≢ prefix ++ t)
    → (p : Bytes) × (ps : List Bytes) × (split b'/' s ≡ p ∷ ps) × Misses prefix p
first-Misses prefix s h =
    let (p, ps, r, e, f) = split_first b'/' s in
    (
      p,
      ps,
      e,
      elim (Bool-cases (has_prefix p prefix)) [
        | inl g ↦
            let (t, k) = has_prefix_sound p prefix g in
            absurd (h (t ++ r) (f ∙ ap (λ z. z ++ r) k ∙ append_assoc prefix t r))
        | inr g ↦ g
      ],
    )

tail-Misses : (prefix s : Bytes) → NowhereIn prefix s → All (Misses prefix) (tail (split b'/' s))
unfolding split tail
tail-Misses prefix [] h = tt
tail-Misses prefix (c ∷ s) h = elim (Bool-cases (c == b'/')) [
  | inl e ↦
      let here : c ≡ b'/' = ground arith in
      let (p, ps, f, m) = first-Misses prefix s (λ t k. h [] t (rw (here, k) refl)) in
      rw (e, f) (m, rw f at (tail-Misses prefix s (λ a t k. h (c ∷ a) t (ap (◌∷◌ c) k))))
  | inr e ↦
      let (p, ps, r, f, g) = split_first b'/' s in
      rw (split_cons b'/' c s e f)
        (rw f at (tail-Misses prefix s (λ a t k. h (c ∷ a) t (ap (◌∷◌ c) k))))
]

-- The Caddy module hands a request on to `next`, unchanged, if its path neither begins with the prefix
-- nor has it behind a slash.
pub caddy_serve_http_passes :
    (prefix : Bytes) (next : Handler) (x : Exchange)
    → ((t : Bytes) → x.path ≢ prefix ++ t)
    → NowhereIn prefix x.path
    → caddy_serve_http prefix next x ≡ next x
unfolding caddy_serve_http tail
caddy_serve_http_passes prefix next x h k =
    let (p, ps, e, m) = first-Misses prefix x.path h in
    let rest : All (Misses prefix) (tail (p ∷ ps)) = rw e at (tail-Misses prefix x.path k) in
    rw e (restrict_miss prefix next (p ∷ ps) x (m, rest))

names_miss :
    (b : ℕ) (prefix : Bytes) (names : List Bytes)
    → All (λ p. Misses (b ∷ prefix) p × IsName p) names
    → All (Misses (b ∷ prefix)) ([] ∷ parts_of names)
unfolding has_prefix
names_miss b prefix [] h = (refl, (refl, tt))
names_miss b prefix (q ∷ qs) h = (refl, All-map (q ∷ qs) (λ p k. k.0) h)

-- What the Caddy module lets pass because no element of the path has the prefix, the RestrictPrefix of
-- chapter9 lets pass too, for paths that begin with a slash and prefixes that are not empty.
pub restrict_prefix_passes :
    (b : ℕ) (prefix : Bytes) (next : Handler) (x : Exchange) (s : Bytes)
    → x.path ≡ b'/' ∷ s
    → All (Misses (b ∷ prefix)) (split b'/' x.path)
    → restrict_prefix (b ∷ prefix) next x ≡ next x
unfolding restrict_prefix
restrict_prefix_passes b prefix next x s e h =
    let (names, (all, f)) =
      split-clean (Misses (b ∷ prefix)) s
        (subst (λ z. All (Misses (b ∷ prefix)) (split b'/' z)) e h) in
    ap (λ z. restrict_parts (b ∷ prefix) next (split b'/' (clean z)) x) e
    ∙ ap (λ ps. restrict_parts (b ∷ prefix) next ps x) f
    ∙ restrict_miss (b ∷ prefix) next ([] ∷ parts_of names) x (names_miss b prefix names all)

-- A POST whose body can be read is answered by 405, if nothing was sent before, and `next` is
-- called all the same: what DefaultHandler writes for it follows the error in the response's body.
pub middleware-default_handler :
    (x : Exchange)
    → x.method ≡ codes "POST"
    → x.head ≡ none
    → x.body ≡ []
    → x.body_fails ≡ false
    → let y = middleware default_handler x in
      (status_of y.head ≡ 405) × (y.body ≡ codes "Method not allowed\n" ++ greeting x.unread)
unfolding middleware default_handler respond greet greeting read_all write write_header http_error
    first_head drain equal
middleware-default_handler x e h b f = rw (e, h, b, f) (refl, refl)
