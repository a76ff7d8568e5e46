-- ===== src/Http/Push/Elements.antt =====
-- chapter9/push.go and middleware.go: a path without a slash in front, as StripPrefix leaves it, is
-- cleaned by RestrictPrefix as it is, and by the file server with a slash in front.
use mathlib.Core.List.{reverse, reverse-reverse}
use networking_in_go.Go.Fields.{split, join, Free, split-Free}
use networking_in_go.Go.Fields.Split.{split-join}
use networking_in_go.Http.Middleware.{
  push_element, clean_elements, put_root, is_rooted, clean, has_prefix,
}
use networking_in_go.Http.Middleware.Paths.{All-map, All-zip, All-reverse}
use networking_in_go.Http.Middleware.Restrict.{Misses}
use networking_in_go.Prelude.{
  Bytes, codes, equal, equal_sound, All, Bool-cases, [], ◌∷◌, true, false, refl, inl, inr, List,
  ◌≡◌, Bool, ◌||◌, ◌&&◌, not, subst,
}

-- Not in the list is "..".
abbrev pub NoDots : List Bytes → Type 0
NoDots = All (λ p. equal p (codes "..") ≡ false)

-- Once ".." is kept, it stays.
push_element-NoDots :
    (rooted : Bool) (p : Bytes) (kept : List Bytes)
    → NoDots (push_element rooted p kept)
    → NoDots kept
unfolding push_element
push_element-NoDots rooted p [] h = tt
push_element-NoDots rooted p (q ∷ kept) h = elim (Bool-cases (equal q (codes ".."))) [
  | inl e ↦ elim (Bool-cases (equal p (codes ".."))) [
    | inl f ↦ (rw (e, f) at h).1
    | inr f ↦ (rw f at h).1
  ]
  | inr e ↦ elim (Bool-cases (equal p (codes ".."))) [
    | inl f ↦ (e, rw (e, f) at h)
    | inr f ↦ (rw f at h).1
  ]
]

-- An element is pushed alike with and without the root, unless ".." is then kept.
push_element-push_element :
    (p : Bytes) (kept : List Bytes)
    → NoDots (push_element false p kept)
    → push_element true p kept ≡ push_element false p kept
unfolding push_element
push_element-push_element p [] h = rw h.0 refl
push_element-push_element p (q ∷ kept) h = refl

clean_elements-NoDots : (ps kept : List Bytes) → NoDots (clean_elements false ps kept) → NoDots kept
unfolding clean_elements
clean_elements-NoDots [] kept h = h
clean_elements-NoDots (p ∷ ps) kept h = elim (Bool-cases (equal p [] || equal p (codes "."))) [
  | inl e ↦ clean_elements-NoDots ps kept (rw e at h)
  | inr e ↦ push_element-NoDots false p kept (clean_elements-NoDots ps _ (rw e at h))
]

clean_elements-clean_elements :
    (ps kept : List Bytes)
    → NoDots (clean_elements false ps kept)
    → clean_elements true ps kept ≡ clean_elements false ps kept
unfolding clean_elements
clean_elements-clean_elements [] kept h = refl
clean_elements-clean_elements (p ∷ ps) kept h =
    elim (Bool-cases (equal p [] || equal p (codes "."))) [
      | inl e ↦ rw e (clean_elements-clean_elements ps kept (rw e at h))
      | inr e ↦
          let k = rw e at h in
          let f = push_element-push_element p kept (clean_elements-NoDots ps _ k) in
          rw (e, f) (clean_elements-clean_elements ps _ k)
    ]

module _ (P : Bytes → Type 0) (rooted : Bool) where
  push_element-All :
      (p : Bytes) (kept : List Bytes) → P p → All P kept → All P (push_element rooted p kept)
  unfolding push_element
  push_element-All p [] h k = elim (Bool-cases (rooted && equal p (codes ".."))) [
    | inl e ↦ rw e tt
    | inr e ↦ rw e (h, tt)
  ]
  push_element-All p (q ∷ kept) h k =
      elim (Bool-cases (equal p (codes "..") && not (equal q (codes "..")))) [
        | inl e ↦ rw e k.1
        | inr e ↦ rw e (h, k)
      ]

  clean_elements-All :
      (ps kept : List Bytes) → All P ps → All P kept → All P (clean_elements rooted ps kept)
  unfolding clean_elements
  clean_elements-All [] kept h k = k
  clean_elements-All (p ∷ ps) kept h k = elim (Bool-cases (equal p [] || equal p (codes "."))) [
    | inl e ↦ rw e (clean_elements-All ps kept h.1 k)
    | inr e ↦ rw e (clean_elements-All ps _ h.1 (push_element-All p kept h.0 k))
  ]

-- An element of a path that the file server may open: it does not begin with a dot.
abbrev pub IsVisible : Bytes → Type 0
IsVisible p = Free b'/' p × Misses (codes ".") p

-- A path of such elements.
abbrev pub VisiblePath : Bytes → Type 0
VisiblePath path =
    (names : List Bytes) × All IsVisible names × (path ≡ b'/' ∷ join names (codes "/"))

-- The elements of a joined path, if there is one, are those it was joined from.
join-IsVisible :
    (names : List Bytes)
    → All (Free b'/') names
    → All (Misses (codes ".")) (split b'/' (join names (codes "/")))
    → All IsVisible names
join-IsVisible [] h k = tt
join-IsVisible (q ∷ qs) h k =
    All-zip (Free b'/') (Misses (codes ".")) (q ∷ qs) h (rw (split-join b'/' q qs h) at k)

-- The elements that cleaning keeps, the last one first.
abbrev kept_of : Bool → Bytes → List Bytes
kept_of rooted s = clean_elements rooted (split b'/' s) []

kept_of-Free : (rooted : Bool) (s : Bytes) → All (Free b'/') (reverse (kept_of rooted s))
kept_of-Free rooted s =
    All-reverse (Free b'/') (kept_of rooted s)
      (clean_elements-All (Free b'/') rooted (split b'/' s) [] (split-Free b'/' s) tt)

pub rooted_visible :
    (s : Bytes)
    → All (Misses (codes ".")) (split b'/' (clean (b'/' ∷ s)))
    → VisiblePath (clean (b'/' ∷ s))
unfolding clean is_rooted put_root split
rooted_visible s h =
    (reverse (kept_of true (b'/' ∷ s)), join-IsVisible _ (kept_of-Free true (b'/' ∷ s)) h.1, refl)

visible_dots : (p : Bytes) → IsVisible p → equal p (codes "..") ≡ false
unfolding has_prefix
visible_dots p h = elim (Bool-cases (equal p (codes ".."))) [
  | inl e ↦
      let k : has_prefix (codes "..") (codes ".") ≡ false =
        subst (Misses (codes ".")) (equal_sound p (codes "..") e) h.1 in
      cc
  | inr e ↦ e
]

put_root-Misses :
    (s : Bytes)
    → All (Misses (codes ".")) (split b'/' (put_root false s))
    → All (Misses (codes ".")) (split b'/' s)
unfolding put_root has_prefix split
put_root-Misses [] h = let k : true ≡ false = h.0 in cc
put_root-Misses (c ∷ s) h = h

pub unrooted_visible :
    (s : Bytes)
    → is_rooted s ≡ false
    → All (Misses (codes ".")) (split b'/' (clean s))
    → VisiblePath (clean (b'/' ∷ s))
unfolding clean is_rooted put_root split clean_elements equal
unrooted_visible s e h =
    let visible =
      join-IsVisible _ (kept_of-Free false s)
        (put_root-Misses (join (reverse (kept_of false s)) (codes "/")) (rw e at h)) in
    let no_dots = subst NoDots (reverse-reverse (kept_of false s)) (
      All-reverse _ (reverse (kept_of false s))
        (All-map (reverse (kept_of false s)) visible_dots visible)) in
    let same : kept_of true (b'/' ∷ s) ≡ kept_of false s =
      clean_elements-clean_elements (split b'/' s) [] no_dots in
    (reverse (kept_of false s), visible, rw same refl)
