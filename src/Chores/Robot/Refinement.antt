-- ===== src/Chores/Robot/Refinement.antt =====
-- chapter12/server/robot.go: the service as a list of chores.
use networking_in_go.Chores.Chore.{
  Chore, mark, Follows, Follows-self, Follows-trans, get_elem?-mark,
}
use networking_in_go.Chores.Robot.{
  Rosie, Request, add_request, complete_request, list_request, Response, success, chores_response,
  not_found, append_slice, complete_in, serve, serve_all,
}
use networking_in_go.Chores.Store.{chore_index}
use networking_in_go.Prelude.{
  ℕ, zero, suc, List, [], ◌∷◌, ◌++◌, ◌≡◌, refl, ap, ◌∙◌, arith, inl, inr, Option-cases, Option,
  none, some, length, ℤ, pos, negsuc, get_elem?,
}

-- The chores that the service holds.
abbrev pub contents : Rosie → List Chore
contents r = elim r.chores [ none ↦ [] | some cs ↦ cs ]

-- The service without slices: a list, which only grows and is marked.
unfoldable pub complete_spec : ℤ → Option ℕ → List Chore → List Chore × Response
complete_spec i none cs = (cs, not_found i)
complete_spec i (some k) cs = (mark cs k, success)

unfoldable pub serve_spec : List Chore → Request → List Chore × Response
unfolding complete_spec
serve_spec cs (add_request new) = (cs ++ new, success)
serve_spec cs (complete_request i) = complete_spec i (chore_index i (length cs)) cs
serve_spec cs list_request = (cs, chores_response cs)

unfoldable pub serve_all_spec : List Chore → List Request → List Chore × List Response
unfolding serve_spec
serve_all_spec cs [] = (cs, [])
serve_all_spec cs (q ∷ qs) =
    let (cs', x) = serve_spec cs q in let (last, xs) = serve_all_spec cs' qs in (last, x ∷ xs)

abbrev pub view : Rosie × Response → List Chore × Response
view (r, x) = (contents r, x)

pub view-serve :
    (o : Option (List Chore)) (q : Request)
    → view (serve (record { chores = o }) q) ≡ serve_spec (contents (record { chores = o })) q
unfolding serve serve_spec complete_spec chore_index append_slice complete_in
view-serve none (add_request []) = refl
view-serve none (add_request (c ∷ cs)) = refl
view-serve (some xs) (add_request cs) = refl
view-serve none (complete_request (negsuc n)) = refl
view-serve none (complete_request (pos n)) = ground arith
view-serve (some xs) (complete_request (negsuc n)) = refl
view-serve (some xs) (complete_request (pos n)) = ground arith
view-serve none list_request = refl
view-serve (some xs) list_request = refl

view-serve_all :
    (qs : List Request) (o : Option (List Chore))
    → let (r, xs) = serve_all (record { chores = o }) qs in
      (contents r, xs) ≡ serve_all_spec (contents (record { chores = o })) qs
unfolding serve_all serve_all_spec
view-serve_all [] o = refl
view-serve_all (q ∷ qs) o =
    let r = serve (record { chores = o }) q in
    ap (λ (z : List Chore × List Response). (z.0, r.1 ∷ z.1)) (view-serve_all qs r.0.chores)
    ∙ ap
        (λ (p : List Chore × Response).
          ((serve_all_spec p.0 qs).0, p.1 ∷ (serve_all_spec p.0 qs).1))
        (view-serve o q)

-- Whatever the calls and their order, `Rosie` answers as the list of chores does, and holds its
-- chores: a slice that is nil is not told from one that is empty.
pub serve_all-refines :
    (r : Rosie) (qs : List Request)
    → let (r', xs) = serve_all r qs in (contents r', xs) ≡ serve_all_spec (contents r) qs
serve_all-refines r qs = view-serve_all qs r.chores

get_elem?-append :
    (xs ys : List Chore) (i : ℕ) {c : Chore}
    → get_elem? xs i ≡ some c
    → get_elem? (xs ++ ys) i ≡ some c
get_elem?-append [] ys i h = cc
get_elem?-append (x ∷ xs) ys zero h = h
get_elem?-append (x ∷ xs) ys (suc i) h = get_elem?-append xs ys i h

-- The chore at an index, after: the same one, at least as done.
abbrev Kept : List Chore → ℕ → Chore → Type 0
Kept cs i c = (c' : Chore) × (get_elem? cs i ≡ some c') × Follows c c'

serve_spec-Kept :
    (cs : List Chore) (q : Request) (i : ℕ) (c : Chore)
    → get_elem? cs i ≡ some c
    → Kept (serve_spec cs q).0 i c
unfolding serve_spec complete_spec
serve_spec-Kept cs (add_request new) i c h = (c, get_elem?-append cs new i h, Follows-self c)
serve_spec-Kept cs list_request i c h = (c, h, Follows-self c)
serve_spec-Kept cs (complete_request n) i c h = elim (Option-cases (chore_index n (length cs))) [
  | inl e ↦ (c, rw e h, Follows-self c)
  | inr (k, e) ↦ let (c', g, f) = get_elem?-mark cs k i h in (c', rw e g, f)
]

serve_all_spec-Kept :
    (qs : List Request) (cs : List Chore) (i : ℕ) (c : Chore)
    → get_elem? cs i ≡ some c
    → Kept (serve_all_spec cs qs).0 i c
unfolding serve_all_spec
serve_all_spec-Kept [] cs i c h = (c, h, Follows-self c)
serve_all_spec-Kept (q ∷ qs) cs i c h =
    let (c₁, h₁, f₁) = serve_spec-Kept cs q i c h in
    let (c₂, h₂, f₂) = serve_all_spec-Kept qs (serve_spec cs q).0 i c₁ h₁ in
    (c₂, h₂, Follows-trans f₁ f₂)

-- A chore keeps its number and its description whatever calls follow, and a chore that is done stays
-- done.
pub serve_all-keeps :
    (r : Rosie) (qs : List Request) (i : ℕ) (c : Chore)
    → get_elem? (contents r) i ≡ some c
    → (c' : Chore) × (get_elem? (contents (serve_all r qs).0) i ≡ some c') × Follows c c'
serve_all-keeps r qs i c h =
    let (c', g, f) = serve_all_spec-Kept qs (contents r) i c h in
    (c', ap (λ (p : List Chore × List Response). get_elem? p.0 i) (serve_all-refines r qs) ∙ g, f)
