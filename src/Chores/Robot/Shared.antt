-- ===== src/Chores/Robot/Shared.antt =====
-- chapter12/server/robot.go: what the client of List gets. List returns the slice itself: gRPC encodes it once
-- the handler has returned, without the mutex, when other calls may have been handled. The chores are shared
-- by their pointers, and a slice that was returned keeps its length.
use mathlib.Core.Option.{some-injective}
use networking_in_go.Chores.Chore.{Chore, mark, length-mark}
use networking_in_go.Chores.Robot.{
  Rosie, Request, add_request, complete_request, list_request, Response, success, chores_response,
  not_found, list, list_slice, serve_all,
}
use networking_in_go.Chores.Robot.Refinement.{
  contents, serve_all_spec, serve_spec, complete_spec, serve_all-refines,
}
use networking_in_go.Chores.Store.{chore_index}
use networking_in_go.Prelude.{
  All, ◌≢◌, ℤ, ◌<◌, length, take, get_elem?, arith, take-length-append, length-append, pos,
  append_assoc, append-nil, none, some, [], ◌∷◌, true, false, refl, Option, List, ◌≡◌, ℕ, ◌++◌, ◌+◌,
  ◌<◌, ap, sym, ◌∙◌,
}

slice_of : Response → List Chore
slice_of success = []
slice_of (chores_response cs) = cs
slice_of (not_found i) = []

-- The response of List as it is encoded after the other calls.
encode_after : Rosie × Response → List Request → List Chore
unfolding slice_of
encode_after (r, x) qs = take (length (slice_of x)) (contents (serve_all r qs).0)

unfoldable pub list_late : Rosie → List Request → List Chore
unfolding encode_after list
list_late r qs = encode_after (list r) qs

-- The chores of the service after some calls.
abbrev pub chores_after : List Chore → List Request → List Chore
chores_after cs qs = (serve_all_spec cs qs).0

encode_after-list_slice :
    (o : Option (List Chore)) (qs : List Request)
    → let cs = contents (record { chores = o }) in
      encode_after (list_slice o) qs ≡ take (length cs) (chores_after cs qs)
unfolding encode_after slice_of list_slice
encode_after-list_slice none qs = refl
encode_after-list_slice (some xs) qs =
    ap (λ (p : List Chore × List Response). take (length xs) p.0)
      (serve_all-refines (record { chores = some xs }) qs)

list_late_lem :
    (r : Rosie) (qs : List Request)
    → list_late r qs ≡ take (length (contents r)) (chores_after (contents r) qs)
unfolding list_late
list_late_lem r qs = encode_after-list_slice r.chores qs

-- Without a call of Complete, chores are only added.
abbrev pub NoComplete : List Request → Type 0
NoComplete = All (λ q. (i : ℤ) → q ≢ complete_request i)

chores_after-NoComplete :
    (cs : List Chore) (qs : List Request)
    → NoComplete qs
    → (new : List Chore) × (chores_after cs qs ≡ cs ++ new)
unfolding serve_all_spec serve_spec
chores_after-NoComplete cs [] h = ([], sym (append-nil cs))
chores_after-NoComplete cs (add_request ds ∷ qs) h =
    let (new, e) = chores_after-NoComplete (cs ++ ds) qs h.1 in
    (ds ++ new, e ∙ append_assoc cs ds new)
chores_after-NoComplete cs (complete_request i ∷ qs) h = absurd (h.0 i refl)
chores_after-NoComplete cs (list_request ∷ qs) h = chores_after-NoComplete cs qs h.1

-- If no call of Complete comes between List and the encoding of its response, the client gets the chores as
-- List found them, whatever else comes.
pub list_late-NoComplete :
    (r : Rosie) (qs : List Request) → NoComplete qs → list_late r qs ≡ contents r
list_late-NoComplete r qs h =
    let (new, e) = chores_after-NoComplete (contents r) qs h in
    list_late_lem r qs ∙ ap (take (length (contents r))) e ∙ take-length-append (contents r) new

mark-append : (cs new : List Chore) (k : ℕ) → k < length cs → mark (cs ++ new) k ≡ mark cs k ++ new
unfolding mark
mark-append [] new k h = absurd (omega arith)
mark-append (c ∷ cs) new ℕ.zero h = refl
mark-append (c ∷ cs) new (ℕ.suc k) h = ap (◌∷◌ c) (mark-append cs new k (omega arith))

done_option : Option Chore → Option Chore
done_option none = none
done_option (some c) = some (record c { complete = true })

get_elem?-mark_same :
    (cs : List Chore) (k : ℕ) (c : Chore)
    → get_elem? cs k ≡ some c
    → get_elem? (mark cs k) k ≡ some (record c { complete = true })
unfolding mark done_option
get_elem?-mark_same [] k c h = cc
get_elem?-mark_same (d ∷ cs) ℕ.zero c h = ap done_option h
get_elem?-mark_same (d ∷ cs) (ℕ.suc k) c h = get_elem?-mark_same cs k c h

mark_differs :
    (cs : List Chore) (k : ℕ) (c : Chore)
    → get_elem? cs k ≡ some c
    → c.complete ≡ false
    → mark cs k ≢ cs
mark_differs cs k c h u e =
    let f : some c ≡ some (record c { complete = true }) =
      sym h ∙ (sym (ap (λ z. get_elem? z k) e) ∙ get_elem?-mark_same cs k c h) in
    let g : c ≡ record c { complete = true } = some-injective c (record c { complete = true }) f in
    let t : false ≡ true = sym u ∙ ap (λ (x : Chore). x.complete) g in cc

get_elem?_lt : (cs : List Chore) (k : ℕ) (c : Chore) → get_elem? cs k ≡ some c → k < length cs
get_elem?_lt [] k c h = cc
get_elem?_lt (d ∷ cs) ℕ.zero c h = omega arith
get_elem?_lt (d ∷ cs) (ℕ.suc k) c h = let lt = get_elem?_lt cs k c h in omega arith

append_longer : (xs ys ds : List Chore) (d : Chore) → length xs ≡ length ys → xs ≢ ys ++ d ∷ ds
append_longer xs ys ds d h e =
    let f : length xs ≡ length ys + ℕ.suc (length ds) = ap length e ∙ length-append ys (d ∷ ds) in
    omega arith

chore_index_suc : (k n : ℕ) → k < n → chore_index (pos (k + 1)) n ≡ some k
unfolding chore_index
chore_index_suc k n h = ground arith

chores_after_torn :
    (cs ds : List Chore) (d : Chore) (k : ℕ)
    → k < length cs
    → chores_after cs (add_request (d ∷ ds) ∷ complete_request (pos (k + 1)) ∷ [])
      ≡ mark (cs ++ d ∷ ds) k
unfolding serve_all_spec serve_spec complete_spec
chores_after_torn cs ds d k h =
    ap (λ o. (complete_spec (pos (k + 1)) o (cs ++ d ∷ ds)).0)
      (chore_index_suc k (length (cs ++ d ∷ ds)) (omega (arith, length-append cs (d ∷ ds))))

-- The list that the client gets is one that the service never held: a chore that was added is missing,
-- and a chore is done that was marked after it was added.
pub list_late_torn :
    (r : Rosie) (k : ℕ) (c d : Chore) (ds : List Chore)
    → get_elem? (contents r) k ≡ some c
    → c.complete ≡ false
    → let cs = contents r in
      (list_late r (add_request (d ∷ ds) ∷ complete_request (pos (k + 1)) ∷ []) ≡ mark cs k)
      × (mark cs k ≢ cs)
      × (mark cs k ≢ cs ++ d ∷ ds)
      × (mark cs k ≢ mark (cs ++ d ∷ ds) k)
list_late_torn r k c d ds h u =
    let cs = contents r in
    let lt = get_elem?_lt cs k c h in
    let e = mark-append cs (d ∷ ds) k lt in
    (
      list_late_lem r _
          ∙ ap (take (length cs)) (chores_after_torn cs ds d k lt ∙ e)
          ∙ ap (λ n. take n (mark cs k ++ d ∷ ds)) (sym (length-mark cs k))
          ∙ take-length-append (mark cs k) (d ∷ ds),
      mark_differs cs k c h u,
      append_longer (mark cs k) cs ds d (length-mark cs k),
      λ f. append_longer (mark cs k) (mark cs k) ds d refl (f ∙ e),
    )
