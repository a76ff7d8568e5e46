-- ===== src/Chores/Chore.antt =====
-- chapter12/homework/homework.go and the loop by which both programs make chores of a text. Texts are
-- lists of code points.
use networking_in_go.Go.Fields.{
  split, trim_space, StartsBare, EndsBare, Free, split-Free, trim_space-Free, trim_space_lem,
}
use mathlib.Core.Option.{some-injective, some}
use networking_in_go.Prelude.{
  ℕ, zero, suc, Bool, true, false, not, List, [], ◌∷◌, ◌≡◌, ◌≢◌, refl, arith, inl, inr, Bool-cases,
  Bytes, equal, equal_iff, if◌then◌else◌, All, length, ◌∙◌, get_elem?, ap,
}

pub record Chore : Type 0 where
  pub complete : Bool
  pub description : Bytes

-- `if desc := strings.TrimSpace(chore); desc != "" { chores = append(…) }`
append_chore : Bytes → List Chore → List Chore
append_chore desc rest =
    if not (equal desc []) then record { complete = false; description = desc } ∷ rest else rest

-- The loop over the parts, as what it appends.
chores_of_parts : List Bytes → List Chore
unfolding append_chore
chores_of_parts [] = []
chores_of_parts (p ∷ ps) = append_chore (trim_space p) (chores_of_parts ps)

unfoldable pub new_chores : Bytes → List Chore
unfolding chores_of_parts
new_chores s = chores_of_parts (split b',' s)

-- `chores[i].Complete = true`; out of range nothing is written, which the callers exclude.
unfoldable pub mark : List Chore → ℕ → List Chore
mark [] i = []
mark (c ∷ cs) zero = record c { complete = true } ∷ cs
mark (c ∷ cs) (suc i) = c ∷ mark cs i

-- A chore as `add` makes it: it is not done, and its description is a part of the text with no white
-- space at its ends, not empty, with no comma.
pub record IsNew (c : Chore) : Type 0 where
  pub open_still : c.complete ≡ false
  pub starts : StartsBare c.description
  pub ends : EndsBare c.description
  pub not_empty : c.description ≢ []
  pub one_part : Free b',' c.description

append_chore-IsNew :
    (p : Bytes) (rest : List Chore)
    → Free b',' p
    → All IsNew rest
    → All IsNew (append_chore (trim_space p) rest)
unfolding append_chore
append_chore-IsNew p rest f h = elim (Bool-cases (equal (trim_space p) [])) [
  | inl e ↦ rw e h
  | inr e ↦ rw e (
    record {
      open_still = refl;
      starts = (trim_space_lem p).0;
      ends = (trim_space_lem p).1;
      not_empty = ground (arith, equal_iff (trim_space p) []);
      one_part = trim_space-Free b',' p f;
    },
    h,
  )
]

chores_of_parts-IsNew : (ps : List Bytes) → All (Free b',') ps → All IsNew (chores_of_parts ps)
unfolding chores_of_parts
chores_of_parts-IsNew [] h = tt
chores_of_parts-IsNew (p ∷ ps) h = append_chore-IsNew p _ h.0 (chores_of_parts-IsNew ps h.1)

-- Whatever the text, each chore made of it is not done, and its description is not empty, holds no
-- comma and has no white space at its ends.
pub new_chores-IsNew : (s : Bytes) → All IsNew (new_chores s)
unfolding new_chores
new_chores-IsNew s = chores_of_parts-IsNew (split b',' s) (split-Free b',' s)

pub length-mark : (cs : List Chore) (i : ℕ) → length (mark cs i) ≡ length cs
unfolding mark
length-mark [] i = refl
length-mark (c ∷ cs) zero = refl
length-mark (c ∷ cs) (suc i) = ap suc (length-mark cs i)

-- A chore that is, at least, the other one: the same description, and done if the other is.
pub record Follows (c c' : Chore) : Type 0 where
  pub same_text : c'.description ≡ c.description
  pub still_done : c.complete ≡ true → c'.complete ≡ true

pub Follows-self : (c : Chore) → Follows c c
Follows-self c = record { same_text = refl; still_done = λ h. h }

pub Follows-trans : {a b c : Chore} → Follows a b → Follows b c → Follows a c
Follows-trans h k = record {
  same_text = k.same_text ∙ h.same_text;
  still_done = λ e. k.still_done (h.still_done e);
}

pub get_elem?-mark :
    (cs : List Chore) (i j : ℕ) {c : Chore}
    → get_elem? cs j ≡ some c
    → (c' : Chore) × (get_elem? (mark cs i) j ≡ some c') × Follows c c'
unfolding mark
get_elem?-mark [] i j h = cc
get_elem?-mark (d ∷ cs) zero zero {c} h = (
  record d { complete = true },
  refl,
  record {
    same_text = ap (λ (x : Chore). x.description) (some-injective d c h);
    still_done = λ e. refl;
  },
)
get_elem?-mark (d ∷ cs) zero (suc j) {c} h = (c, h, Follows-self c)
get_elem?-mark (d ∷ cs) (suc i) zero {c} h = (c, h, Follows-self c)
get_elem?-mark (d ∷ cs) (suc i) (suc j) h = get_elem?-mark cs i j h
