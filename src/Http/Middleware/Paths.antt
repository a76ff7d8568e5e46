-- ===== src/Http/Middleware/Paths.antt =====
-- chapter9/middleware.go: the elements of a cleaned path.
use mathlib.Core.List.{reverse, reverse_aux}
use networking_in_go.Go.Fields.{split, join, Free, split-Free}
use networking_in_go.Go.Fields.Split.{split-join}
use networking_in_go.Http.Middleware.{push_element, clean_elements, put_root, is_rooted, clean}
use networking_in_go.Prelude.{
  Bytes, codes, equal, All, Bool-cases, [], ◌∷◌, true, false, refl, inl, inr, List, ◌≡◌, ap,
}

pub All-reverse_aux :
    (P : Bytes → Type 0) (xs ys : List Bytes) → All P xs → All P ys → All P (reverse_aux xs ys)
All-reverse_aux P [] ys h k = k
All-reverse_aux P (x ∷ xs) ys h k = All-reverse_aux P xs (x ∷ ys) h.1 (h.0, k)

pub All-reverse : (P : Bytes → Type 0) (xs : List Bytes) → All P xs → All P (reverse xs)
All-reverse P xs h = All-reverse_aux P xs [] h tt

-- An element that names something: it is not empty, not "." and not "..".
pub record IsName (p : Bytes) : Type 0 where
  pub not_empty : equal p [] ≡ false
  pub not_dot : equal p (codes ".") ≡ false
  pub not_dots : equal p (codes "..") ≡ false

module _ (P : Bytes → Type 0) where
  push_element-All :
      (p : Bytes) (kept : List Bytes)
      → P p
      → equal p [] ≡ false
      → equal p (codes ".") ≡ false
      → All (λ q. P q × IsName q) kept
      → All (λ q. P q × IsName q) (push_element true p kept)
  unfolding push_element
  push_element-All p [] h e f k = elim (Bool-cases (equal p (codes ".."))) [
    | inl g ↦ rw g tt
    | inr g ↦ rw g ((h, record { not_empty = e; not_dot = f; not_dots = g }), tt)
  ]
  push_element-All p (q ∷ kept) h e f k = elim (Bool-cases (equal p (codes ".."))) [
    | inl g ↦ rw (g, k.0.1.not_dots) k.1
    | inr g ↦ rw g ((h, record { not_empty = e; not_dot = f; not_dots = g }), k)
  ]

  clean_elements-All :
      (ps kept : List Bytes)
      → All P ps
      → All (λ q. P q × IsName q) kept
      → All (λ q. P q × IsName q) (clean_elements true ps kept)
  unfolding clean_elements
  clean_elements-All [] kept h k = k
  clean_elements-All (p ∷ ps) kept h k = elim (Bool-cases (equal p [])) [
    | inl e ↦ rw e (clean_elements-All ps kept h.1 k)
    | inr e ↦ elim (Bool-cases (equal p (codes "."))) [
      | inl f ↦ rw (e, f) (clean_elements-All ps kept h.1 k)
      | inr f ↦ rw (e, f) (clean_elements-All ps _ h.1 (push_element-All p kept h.0 e f k))
    ]
  ]

pub All-zip :
    (P Q : Bytes → Type 0) (ps : List Bytes) → All P ps → All Q ps → All (λ p. P p × Q p) ps
All-zip P Q [] h k = tt
All-zip P Q (p ∷ ps) h k = ((h.0, k.0), All-zip P Q ps h.1 k.1)

pub All-map :
    {P Q : Bytes → Type 0} (ps : List Bytes) → ((p : Bytes) → P p → Q p) → All P ps → All Q ps
All-map [] f h = tt
All-map (p ∷ ps) f h = (f p h.0, All-map ps f h.1)

-- What is behind the slash of a path of these elements, once split.
abbrev pub parts_of : List Bytes → List Bytes
parts_of [] = [] ∷ []
parts_of (q ∷ qs) = q ∷ qs

-- The elements of a cleaned path that begins with a slash: what holds of every element of the path holds
-- of them, each is a name, and splitting the cleaned path gives them, or one empty element, behind the
-- empty one.
abbrev pub Elements : (Bytes → Type 0) → List Bytes → Bytes → Type 0
Elements P names cleaned =
    All (λ p. P p × IsName p) names × (split b'/' cleaned ≡ [] ∷ parts_of names)

split-put_root :
    (P : Bytes → Type 0) (names : List Bytes)
    → All (λ p. (Free b'/' p × P p) × IsName p) names
    → Elements P names (put_root true (join names (codes "/")))
unfolding split put_root join
split-put_root P [] h = (tt, refl)
split-put_root P (q ∷ qs) h = (
  All-map (q ∷ qs) (λ p k. (k.0.1, k.1)) h,
  ap (◌∷◌ []) (split-join b'/' q qs (All-map (q ∷ qs) (λ p k. k.0.0) h)),
)

-- Cleaning a path that begins with a slash leaves a slash and names between slashes: no element of
-- it is empty, "." or "..", and what holds of every element of the path holds of each of them.
pub split-clean :
    (P : Bytes → Type 0) (s : Bytes)
    → All P (split b'/' (b'/' ∷ s))
    → (names : List Bytes) × Elements P names (clean (b'/' ∷ s))
unfolding clean is_rooted join
split-clean P s h =
    let kept = clean_elements true (split b'/' (b'/' ∷ s)) [] in
    let all = All-zip (Free b'/') P (split b'/' (b'/' ∷ s)) (split-Free b'/' (b'/' ∷ s)) h in
    (
      reverse kept,
      split-put_root P (reverse kept) (
          All-reverse _ kept
            (clean_elements-All (λ p. Free b'/' p × P p) (split b'/' (b'/' ∷ s)) [] all tt)),
    )
