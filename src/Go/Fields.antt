-- ===== src/Go/Fields.antt =====
-- `strings.Split`, `strings.Join` and `strings.TrimSpace`, over the code points of a text.
pub mod Split
use networking_in_go.Prelude.{
  ℕ, ◌≤◌, Bool, true, false, ◌&&◌, ◌||◌, List, [], ◌∷◌, ◌++◌, ◌≡◌, ◌≢◌, refl, arith, inl, inr,
  Bool-cases, Bytes, leb, ◌==◌, if◌then◌else◌, All, none, some, Option, ◌+◌, ◌-◌, ◌<◌, zero, suc,
  ap, sym, ◌∙◌,
}

-- Put a code point in front of the first part.
push_front : ℕ → List Bytes → List Bytes
push_front c [] = (c ∷ []) ∷ []
push_front c (p ∷ ps) = (c ∷ p) ∷ ps

-- `strings.Split(s, sep)` for a separator of one code point.
unfoldable pub split : ℕ → Bytes → List Bytes
unfolding push_front
split sep [] = [] ∷ []
split sep (c ∷ s) = let parts = split sep s in if c == sep then [] ∷ parts else push_front c parts

-- `strings.Join(parts, sep)`.
unfoldable pub join : List Bytes → Bytes → Bytes
join [] sep = []
join (p ∷ []) sep = p
join (p ∷ q ∷ ps) sep = p ++ (sep ++ join (q ∷ ps) sep)

within : ℕ → ℕ → ℕ → Bool
within lo hi c = leb lo c && leb c hi

-- `unicode.IsSpace`.
unfoldable pub is_space : ℕ → Bool
unfolding within
is_space c =
    within 0x9 0xd c
    || c == 0x20
    || c == 0x85
    || c == 0xa0
    || c == 0x1680
    || within 0x2000 0x200a c
    || within 0x2028 0x2029 c
    || c == 0x202f
    || c == 0x205f
    || c == 0x3000

unfoldable pub trim_left : Bytes → Bytes
trim_left [] = []
trim_left (c ∷ s) = let rest = trim_left s in if is_space c then rest else c ∷ s

drop_space : ℕ → Bytes → Bytes
drop_space c [] = if is_space c then [] else c ∷ []
drop_space c (d ∷ s) = c ∷ d ∷ s

unfoldable pub trim_tail : Bytes → Bytes
unfolding drop_space
trim_tail [] = []
trim_tail (c ∷ s) = drop_space c (trim_tail s)

unfoldable pub trim_space : Bytes → Bytes
unfolding trim_left trim_tail
trim_space s = trim_tail (trim_left s)

-- The last code point, if there is one, is no white space.
abbrev pub EndsBare : Bytes → Type 0
EndsBare [] = Unit
EndsBare (c ∷ []) = is_space c ≡ false
EndsBare (c ∷ d ∷ s) = EndsBare (d ∷ s)

-- Nor is the first.
abbrev pub StartsBare : Bytes → Type 0
StartsBare [] = Unit
StartsBare (c ∷ s) = is_space c ≡ false

trim_left-StartsBare : (s : Bytes) → StartsBare (trim_left s)
unfolding trim_left
trim_left-StartsBare [] = tt
trim_left-StartsBare (c ∷ s) = elim (Bool-cases (is_space c)) [
  | inl e ↦ rw e (trim_left-StartsBare s)
  | inr e ↦ rw e e
]

drop_space-EndsBare : (c : ℕ) (s : Bytes) → EndsBare s → EndsBare (drop_space c s)
unfolding drop_space
drop_space-EndsBare c [] h = elim (Bool-cases (is_space c)) [ inl e ↦ rw e tt | inr e ↦ rw e e ]
drop_space-EndsBare c (d ∷ s) h = h

trim_tail-EndsBare : (s : Bytes) → EndsBare (trim_tail s)
unfolding trim_tail
trim_tail-EndsBare [] = tt
trim_tail-EndsBare (c ∷ s) = drop_space-EndsBare c (trim_tail s) (trim_tail-EndsBare s)

drop_space-StartsBare : (c : ℕ) (s : Bytes) → is_space c ≡ false → StartsBare (drop_space c s)
unfolding drop_space
drop_space-StartsBare c [] h = rw h h
drop_space-StartsBare c (d ∷ s) h = h

trim_tail-StartsBare : (s : Bytes) → StartsBare s → StartsBare (trim_tail s)
unfolding trim_tail
trim_tail-StartsBare [] h = tt
trim_tail-StartsBare (c ∷ s) h = drop_space-StartsBare c (trim_tail s) h

pub trim_space_lem : (s : Bytes) → StartsBare (trim_space s) × EndsBare (trim_space s)
unfolding trim_space
trim_space_lem s =
    (trim_tail-StartsBare (trim_left s) (trim_left-StartsBare s), trim_tail-EndsBare (trim_left s))

module _ (sep : ℕ) where
  -- No part of a split holds the separator.
  abbrev pub Free : Bytes → Type 0
  Free = All (λ c. c ≢ sep)

  push_front-Free : (c : ℕ) (ps : List Bytes) → c ≢ sep → All Free ps → All Free (push_front c ps)
  unfolding push_front
  push_front-Free c [] ne h = ((ne, tt), tt)
  push_front-Free c (p ∷ ps) ne h = ((ne, h.0), h.1)

  pub split-Free : (s : Bytes) → All Free (split sep s)
  unfolding split
  split-Free [] = (tt, tt)
  split-Free (c ∷ s) = elim (Bool-cases (c == sep)) [
    | inl e ↦ rw e (tt, split-Free s)
    | inr e ↦ rw e (push_front-Free c (split sep s) (ground arith) (split-Free s))
  ]

  trim_left-Free : (s : Bytes) → Free s → Free (trim_left s)
  unfolding trim_left
  trim_left-Free [] h = tt
  trim_left-Free (c ∷ s) h = elim (Bool-cases (is_space c)) [
    | inl e ↦ rw e (trim_left-Free s h.1)
    | inr e ↦ rw e h
  ]

  drop_space-Free : (c : ℕ) (s : Bytes) → c ≢ sep → Free s → Free (drop_space c s)
  unfolding drop_space
  drop_space-Free c [] ne h = elim (Bool-cases (is_space c)) [
    | inl e ↦ rw e tt
    | inr e ↦ rw e (ne, tt)
  ]
  drop_space-Free c (d ∷ s) ne h = (ne, h)

  trim_tail-Free : (s : Bytes) → Free s → Free (trim_tail s)
  unfolding trim_tail
  trim_tail-Free [] h = tt
  trim_tail-Free (c ∷ s) h = drop_space-Free c (trim_tail s) h.0 (trim_tail-Free s h.1)

  pub trim_space-Free : (s : Bytes) → Free s → Free (trim_space s)
  unfolding trim_space
  trim_space-Free s h = trim_tail-Free (trim_left s) (trim_left-Free s h)
