-- ===== src/Http/Methods/Map.antt =====
-- chapter9/handler.go: Methods as a map, whose entries have no order.
use mathlib.Core.List.Permᴰ
use mathlib.Core.List.{Permᴰ}
use mathlib.Core.Quot
use mathlib.Core.Quot.{Quot, Quot-set}
use networking_in_go.Http.Exchange.{Exchange, Handler}
use networking_in_go.Http.Methods.{Methods, lookup, serve_http}
use networking_in_go.Http.Methods.Order.{Distinct, serve_http_perm, lookup_perm}
use networking_in_go.Prelude.{
  Bytes, equal, equal_self, equal_sound, Bool-cases, none, some, [], ◌∷◌, refl, inl, inr, Option,
  ◌≡◌, ◌++◌, ap, sym, ◌∙◌, ap₂, subst,
}

no_entry : {h : Option Handler} → ¬ (none ≡ some h)
no_entry e = cc

find :
    (k : Bytes) (ms : Methods) (h : Option Handler)
    → lookup k ms ≡ some h
    → (before : Methods) × (after : Methods) × (ms ≡ before ++ (k, h) ∷ after)
unfolding lookup
find k [] h e = absurd (no_entry e)
find k ((j, g) ∷ ms) h e = elim (Bool-cases (equal j k)) [
  | inl f ↦
      let found : some g ≡ some h = rw f at e in
      let same : g ≡ h = cc in
      ([], ms, ap₂ (λ (x : Bytes) (y : Option Handler). (x, y) ∷ ms) (equal_sound j k f) same)
  | inr f ↦
      let (before, after, r) = find k ms h (rw f at e) in
      ((j, g) ∷ before, after, ap (◌∷◌ (j, g)) r)
]

lookup_nil : (k : Bytes) → lookup k [] ≡ none
unfolding lookup
lookup_nil k = refl

lookup_self : (k : Bytes) (h : Option Handler) (ms : Methods) → lookup k ((k, h) ∷ ms) ≡ some h
unfolding lookup
lookup_self k h ms = rw (equal_self k) refl

-- Without their first entry, which is the same, lists of no key twice have the same look-ups still.
lookup_tail :
    (k : Bytes) (h : Option Handler) (ms ms' : Methods)
    → Distinct ((k, h) ∷ ms)
    → Distinct ((k, h) ∷ ms')
    → ((j : Bytes) → lookup j ((k, h) ∷ ms) ≡ lookup j ((k, h) ∷ ms'))
    → (j : Bytes) → lookup j ms ≡ lookup j ms'
unfolding lookup Distinct
lookup_tail k h ms ms' d d' same j = elim (Bool-cases (equal k j)) [
  | inl e ↦ subst (λ z. lookup z ms ≡ lookup z ms') (equal_sound k j e) (d.0 ∙ sym d'.0)
  | inr e ↦ rw e at (same j)
]

-- Lists of entries, no key twice, with the same look-ups hold the same entries.
pub lookup-Permᴰ :
    (ms ms' : Methods)
    → Distinct ms
    → Distinct ms'
    → ((k : Bytes) → lookup k ms ≡ lookup k ms')
    → Permᴰ ms ms'
unfolding Distinct
lookup-Permᴰ [] [] d d' same = Permᴰ.nil
lookup-Permᴰ [] ((j, g) ∷ ms') d d' same =
    absurd (no_entry (sym (lookup_nil j) ∙ same j ∙ lookup_self j g ms'))
lookup-Permᴰ ((k, h) ∷ ms) ms' d d' same =
    let (before, after, e) = find k ms' h (sym (same k) ∙ lookup_self k h ms) in
    let front : Permᴰ ms' ((k, h) ∷ before ++ after) =
      subst (λ z. Permᴰ z ((k, h) ∷ before ++ after)) (sym e) (Permᴰ.middle (k, h) before after) in
    let (d'', looked) = lookup_perm front d' in
    let rest =
      lookup-Permᴰ ms (before ++ after) d.1 d''.1
        (lookup_tail k h ms (before ++ after) d d'' (λ j. same j ∙ looked j)) in
    Permᴰ.trans (Permᴰ.cons refl rest) (Permᴰ.symm front)

-- A map: a list of entries, no key twice, up to their order.
abbrev pub Entries : Type 0
Entries = (ms : Methods) × Distinct ms

abbrev pub SameEntries : Entries → Entries → Type 0
SameEntries a b = Permᴰ a.0 b.0

abbrev pub MethodsMap : Type 0
MethodsMap = Quot SameEntries

pub Exchange-set : IsSet Exchange
Exchange-set = hlevel

pub found-set : IsSet (Option (Option Handler))
found-set = hlevel

-- The look-up of a map, and the server of one.
unfoldable pub lookup_map : Bytes → MethodsMap → Option (Option Handler)
lookup_map k = Quot.lift found-set (λ a. lookup k a.0) (λ a b p. (lookup_perm p a.1).1 k)

unfoldable pub serve_map : Exchange → MethodsMap → Exchange
serve_map x = Quot.lift Exchange-set (λ a. serve_http a.0 x) (λ a b p. serve_http_perm x p a.1)

-- Maps of handlers are equal if they give the same handler, or none, for each method: no order of their
-- entries, and nothing else, tells them apart.
pub lookup_map-ext : (m m' : MethodsMap) → ((k : Bytes) → lookup_map k m ≡ lookup_map k m') → m ≡ m'
unfolding lookup_map
lookup_map-ext =
    Quot.ind (λ m p q i m' h. Quot-set m m' (p m' h) (q m' h) i)
      (λ a.
        Quot.ind (λ m p q i h. Quot-set (Quot.mk a) m (p h) (q h) i)
          (λ b same. Quot.sound (lookup-Permᴰ a.0 b.0 a.1 b.1 same)))

-- A request gets the same response from two lists of entries, no key twice, that give the same handler,
-- or none, for each method.
pub serve_http-lookup :
    (ms ms' : Methods) (x : Exchange)
    → Distinct ms
    → Distinct ms'
    → ((k : Bytes) → lookup k ms ≡ lookup k ms')
    → serve_http ms x ≡ serve_http ms' x
unfolding serve_map lookup_map
serve_http-lookup ms ms' x d d' same =
    ap (serve_map x) (lookup_map-ext (Quot.mk (ms, d)) (Quot.mk (ms', d')) same)
