-- ===== src/Http/Methods/Order.antt =====
-- chapter9/handler.go: a map of handlers does not depend on the order of its entries.
use mathlib.Core.List.{Permᴰ, List, ◌∷◌}
use networking_in_go.Http.Exchange.{Handler, Exchange, drain}
use networking_in_go.Http.Methods.{
  Methods, lookup, before, insert, sort, keys, allowed_methods, serve_http, false, true, dispatch,
  join,
}
use networking_in_go.Prelude.{
  Bytes, codes, equal, if◌then◌else◌, arith, equal_iff, ◌≡◌, none, some, [], refl, Option, ap₂, ap,
  ◌∙◌, equal_self, sym, subst,
}

before_total : (s t : Bytes) → before s t ≡ false → before t s ≡ true
unfolding before
before_total [] t h = cc
before_total (a ∷ s) [] h = refl
before_total (a ∷ s) (b ∷ t) h = ground (arith, before_total s t)

before_antisymm : (s t : Bytes) → before s t ≡ true → before t s ≡ true → s ≡ t
unfolding before
before_antisymm [] [] h k = refl
before_antisymm [] (b ∷ t) h k = cc
before_antisymm (a ∷ s) [] h k = cc
before_antisymm (a ∷ s) (b ∷ t) h k = ground (arith, before_antisymm s t)

before_trans : (r s t : Bytes) → before r s ≡ true → before s t ≡ true → before r t ≡ true
unfolding before
before_trans [] s t h k = refl
before_trans (a ∷ r) [] t h k = cc
before_trans (a ∷ r) (b ∷ s) [] h k = cc
before_trans (a ∷ r) (b ∷ s) (c ∷ t) h k = ground (arith, before_trans r s t)

-- Two keys in one order or in the other make no difference.
insert-insert : (a b : Bytes) (ks : List Bytes) → insert a (insert b ks) ≡ insert b (insert a ks)
unfolding insert
insert-insert a b [] = ground (arith, before_total a b, before_antisymm a b)
insert-insert a b (k ∷ ks) = ground (
  arith,
  before_total a b,
  before_antisymm a b,
  before_total a k,
  before_total b k,
  before_trans a b k,
  before_trans b a k,
  insert-insert a b ks,
)

sort_perm : {js ks : List Bytes} → Permᴰ js ks → sort js ≡ sort ks
unfolding sort
sort_perm Permᴰ.nil = refl
sort_perm (Permᴰ.cons {a} {b} e p) = ap₂ insert e (sort_perm p)
sort_perm (Permᴰ.swap {a} {b} {a'} {b'} {l} e f) =
    insert-insert a b (sort l) ∙ ap₂ (λ x y. insert x (insert y (sort l))) f e
sort_perm (Permᴰ.trans p q) = sort_perm p ∙ sort_perm q

abbrev entry_key : Bytes × Option Handler → Bytes
entry_key e = e.0

keys_perm : {ms ms' : Methods} → Permᴰ ms ms' → Permᴰ (keys ms) (keys ms')
unfolding keys
keys_perm Permᴰ.nil = Permᴰ.nil
keys_perm (Permᴰ.cons e p) = Permᴰ.cons (ap entry_key e) (keys_perm p)
keys_perm (Permᴰ.swap e f) = Permᴰ.swap (ap entry_key e) (ap entry_key f)
keys_perm (Permᴰ.trans p q) = Permᴰ.trans (keys_perm p) (keys_perm q)

-- No key has two entries.
unfoldable pub Distinct : Methods → Type 0
Distinct [] = Unit
Distinct ((k, h) ∷ ms) = (lookup k ms ≡ none) × Distinct ms

abbrev pub Same : Methods → Methods → Type 0
Same ms ms' = Distinct ms' × ((k : Bytes) → lookup k ms ≡ lookup k ms')

-- Two entries of different keys, looked up in one order or in the other.
lookup_swap :
    (a b : Bytes × Option Handler) (ms : Methods) (k : Bytes)
    → equal b.0 a.0 ≡ false
    → lookup k (a ∷ b ∷ ms) ≡ lookup k (b ∷ a ∷ ms)
unfolding lookup
lookup_swap a b ms k d = ground (arith, equal_iff a.0 k, equal_iff b.0 k, equal_self k)

lookup_other :
    (k : Bytes) (a : Bytes × Option Handler) (ms : Methods)
    → lookup k (a ∷ ms) ≡ none
    → (equal a.0 k ≡ false) × (lookup k ms ≡ none)
unfolding lookup
lookup_other k a ms h = ground arith

Same-swap :
    (a b : Bytes × Option Handler) (ms : Methods)
    → Distinct (a ∷ b ∷ ms)
    → Same (a ∷ b ∷ ms) (b ∷ a ∷ ms)
unfolding Distinct lookup
Same-swap a b ms (da, d) =
    let (ne, free) = lookup_other a.0 b ms da in
    let ne' : equal a.0 b.0 ≡ false = ground (arith, equal_iff a.0 b.0, equal_iff b.0 a.0) in
    ((rw ne' d.0, (free, d.1)), λ k. lookup_swap a b ms k ne)

pub lookup_perm : {ms ms' : Methods} → Permᴰ ms ms' → Distinct ms → Same ms ms'
unfolding lookup Distinct
lookup_perm Permᴰ.nil d = (tt, λ k. refl)
lookup_perm (Permᴰ.cons {a} {b} {l₁} {l₂} e p) d =
    let (d', same) = lookup_perm p d.1 in
    (
      (ap (λ (z : Bytes × Option Handler). lookup z.0 l₂) (sym e) ∙ sym (same a.0) ∙ d.0, d'),
      λ k.
          ap₂
            (λ (z : Bytes × Option Handler) (o : Option (Option Handler)).
              if equal z.0 k then some z.1 else o)
            e (same k),
    )
lookup_perm (Permᴰ.swap {a} {b} {a'} {b'} {l} e f) d =
    subst (λ x. Same (a ∷ b ∷ l) (x ∷ b' ∷ l)) f
      (subst (λ y. Same (a ∷ b ∷ l) (b ∷ y ∷ l)) e (Same-swap a b l d))
lookup_perm (Permᴰ.trans p q) d =
    let (d', same) = lookup_perm p d in
    let (d'', same') = lookup_perm q d' in (d'', λ k. same k ∙ same' k)

-- Whatever the order of the entries of a map, in which no key has two, a request gets the same
-- response: the same handler answers it, or the same Allow header is sent.
pub serve_http_perm :
    {ms ms' : Methods} (x : Exchange)
    → Permᴰ ms ms'
    → Distinct ms
    → serve_http ms x ≡ serve_http ms' x
unfolding serve_http allowed_methods
serve_http_perm {ms} {ms'} x p d =
    ap₂ (λ h allowed. drain (dispatch h (join allowed (codes ", ")) x))
      ((lookup_perm p d).1 x.method) (sort_perm (keys_perm p))
