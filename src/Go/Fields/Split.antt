-- ===== src/Go/Fields/Split.antt =====
-- `strings.Split` and `strings.Join`: what a split of texts with the separator in them gives.
use networking_in_go.Go.Fields.{push_front, split, join, Free}
use networking_in_go.Prelude.{
  ℕ, false, List, [], ◌∷◌, ◌++◌, ◌≡◌, refl, arith, inl, inr, ap, ◌∙◌, Bool-cases, Bytes, ◌==◌, All,
}

module _ (sep : ℕ) where
  -- There is a first part, and the text begins with it.
  pub split_first :
      (s : Bytes)
      → (p : Bytes) × (ps : List Bytes) × (r : Bytes) × (split sep s ≡ p ∷ ps) × (s ≡ p ++ r)
  unfolding split push_front
  split_first [] = ([], [], [], refl, refl)
  split_first (c ∷ s) = elim (Bool-cases (c == sep)) [
    | inl e ↦ ([], split sep s, c ∷ s, rw e refl, refl)
    | inr e ↦ let (p, ps, r, f, g) = split_first s in (c ∷ p, ps, r, rw (e, f) refl, ap (◌∷◌ c) g)
  ]

  -- A code point that is no separator goes to the first part.
  pub split_cons :
      (c : ℕ) (s : Bytes) {p : Bytes} {ps : List Bytes}
      → (c == sep) ≡ false
      → split sep s ≡ p ∷ ps
      → split sep (c ∷ s) ≡ (c ∷ p) ∷ ps
  unfolding split push_front
  split_cons c s e f = rw (e, f) refl

  push_front-append :
      (c : ℕ) (ps qs : List Bytes) {p : Bytes} {rest : List Bytes}
      → ps ≡ p ∷ rest
      → push_front c (ps ++ qs) ≡ push_front c ps ++ qs
  unfolding push_front
  push_front-append c ps qs e = rw e refl

  pub split-append : (s t : Bytes) → split sep (s ++ sep ∷ t) ≡ split sep s ++ split sep t
  unfolding split
  split-append [] t = ground arith
  split-append (c ∷ s) t = elim (Bool-cases (c == sep)) [
    | inl e ↦ rw e (ap (◌∷◌ []) (split-append s t))
    | inr e ↦
        let (p, ps, r, f, g) = split_first s in
        rw e
          (ap (push_front c) (split-append s t) ∙ push_front-append c (split sep s) (split sep t) f)
  ]

  pub split-Free_self : (s : Bytes) → Free sep s → split sep s ≡ s ∷ []
  unfolding split push_front
  split-Free_self [] h = refl
  split-Free_self (c ∷ s) h = elim (Bool-cases (c == sep)) [
    | inl e ↦ absurd (h.0 (ground arith))
    | inr e ↦ rw (e, split-Free_self s h.1) refl
  ]

  -- The first part of a text begins with every beginning that has no separator.
  pub split_front :
      (s t : Bytes)
      → Free sep s
      → (r : Bytes) × (ps : List Bytes) × (split sep (s ++ t) ≡ (s ++ r) ∷ ps)
  unfolding split push_front
  split_front [] t h = let (p, ps, r, f, g) = split_first t in (p, ps, f)
  split_front (c ∷ s) t h = elim (Bool-cases (c == sep)) [
    | inl e ↦ absurd (h.0 (ground arith))
    | inr e ↦ let (r, ps, f) = split_front s t h.1 in (r, ps, rw (e, f) refl)
  ]

  pub split-join :
      (p : Bytes) (ps : List Bytes)
      → All (Free sep) (p ∷ ps)
      → split sep (join (p ∷ ps) (sep ∷ [])) ≡ p ∷ ps
  unfolding join
  split-join p [] h = split-Free_self p h.0
  split-join p (q ∷ ps) h =
      split-append p (join (q ∷ ps) (sep ∷ []))
      ∙ rw (split-Free_self p h.0) (ap (◌∷◌ p) (split-join q ps h.1))
