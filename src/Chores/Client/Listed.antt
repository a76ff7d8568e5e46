-- ===== src/Chores/Client/Listed.antt =====
-- chapter12/client/client.go: what `list` prints of chores that a client added, when clients have called
-- the service in between.
use networking_in_go.Prelude.{
  some, [], ◌∷◌, refl, List, ◌≡◌, ℕ, ◌++◌, ◌+◌, zero, suc, ap, get_elem?, length, arith,
}
use mathlib.Core.Option.{some-injective}
use networking_in_go.Chores.Chore.{Chore, Follows, new_chores}
use networking_in_go.Chores.Client as Client
use networking_in_go.Chores.Client.{show, Bytes}
use networking_in_go.Chores.Client.Same.{add_chores-contents, list-contents}
use networking_in_go.Chores.Robot.{Rosie, Request, serve_all}
use networking_in_go.Chores.Robot.Refinement.{contents, serve_all-keeps}
use networking_in_go.Chores.Store.{Listing, caught_up, nothing_to_do, table, Row, rows_from}

abbrev pub rows : Listing → List Row
rows l = elim l [ caught_up ↦ [] | nothing_to_do ↦ [] | table rs ↦ rs ]

-- The line of a chore at an index.
abbrev pub row : ℕ → Chore → Row
row k c = record { number = k + 1; crossed = c.complete; text = c.description }

get_elem?-rows_from :
    (i : ℕ) (cs : List Chore) (k m : ℕ) {c : Chore}
    → get_elem? cs k ≡ some c
    → m ≡ i + k
    → get_elem? (rows_from i cs) k ≡ some (row m c)
unfolding rows_from
get_elem?-rows_from i [] k m h e = cc
get_elem?-rows_from i (c' ∷ cs) zero m {c} h e =
    let same : m ≡ i = omega arith in
    rw same (ap (λ (x : Chore). some (row i x)) (some-injective c' c h))
get_elem?-rows_from i (c' ∷ cs) (suc k) m h e = get_elem?-rows_from (i + 1) cs k m h (omega arith)

get_elem?-show :
    (cs : List Chore) (k : ℕ) {c : Chore}
    → get_elem? cs k ≡ some c
    → get_elem? (rows (show cs)) k ≡ some (row k c)
unfolding show
get_elem?-show [] k h = cc
get_elem?-show (c' ∷ cs) k h = get_elem?-rows_from 0 (c' ∷ cs) k k h (omega arith)

get_elem?-append_at :
    (cs new : List Chore) (j k : ℕ) {c : Chore}
    → get_elem? new j ≡ some c
    → k ≡ length cs + j
    → get_elem? (cs ++ new) k ≡ some c
get_elem?-append_at [] new j k h e = let same : k ≡ j = omega arith in rw same h
get_elem?-append_at (d ∷ cs) new j zero h e = ground arith
get_elem?-append_at (d ∷ cs) new j (suc k) h e = get_elem?-append_at cs new j k h (omega arith)

-- What a client adds is listed for every client from then on, whatever calls come in between: each of
-- the chores has its own line, whose number is the one it got when it was added, with the same
-- description, and with an X if it was done.
pub list-serve_all-add :
    (r : Rosie) (s : Bytes) (qs : List Request) (j : ℕ) (c : Chore)
    → get_elem? (new_chores s) j ≡ some c
    → (c' : Chore) × Follows c c'
      × (get_elem?
            (rows (Client.list (serve_all (Client.add s r).0 qs).0).1)
            (length (contents r) + j)
          ≡ some (row (length (contents r) + j) c'))
unfolding Client.add
list-serve_all-add r s qs j c h =
    let added = (Client.add s r).0 in
    let (e, _) = add_chores-contents (new_chores s) r in
    let n = length (contents r) + j in
    let (c', g, f) =
      serve_all-keeps added qs n c
        (rw e (get_elem?-append_at (contents r) (new_chores s) j n h refl)) in
    let (l, _) = list-contents (serve_all added qs).0.chores in
    (c', f, rw l (get_elem?-show (contents (serve_all added qs).0) n g))
