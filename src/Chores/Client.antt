-- ===== src/Chores/Client.antt =====
-- chapter12/client/client.go: the commands as calls of the service. A call has no other errors here
-- than the service's. `strconv.Atoi` gives an `int`, of which the request takes 32 bits.
pub mod Remote
pub mod Listed
pub mod Same
use networking_in_go.Chores.Chore.{Chore, new_chores}
use networking_in_go.Chores.Robot.{
  Rosie, Request, add_request, complete_request, list_request, Response, success, chores_response,
  not_found, serve,
}
use networking_in_go.Go.Decimal.{atoi, to_int32}
use networking_in_go.Chores.Store.{Listing, nothing_to_do, table, rows_from, arg}
use networking_in_go.Go.Fields.{join}
use networking_in_go.Go.Text.{to_lower}
use networking_in_go.Prelude.{
  true, false, map, codes, equal, if◌then◌else◌, drop, ℕ, Bool, List, [], ◌∷◌, Option, none, some,
  Bytes, ℤ, refl, inl, inr, ◌≡◌, ◌++◌, ◌+◌, ◌-◌, ◌≤◌, ◌<◌, zero, suc, ap, sym, ◌∙◌,
}

-- What a command ends in: a number that is none, no call, or the service's response.
pub data Answer : Type 0 where
  bad_number no_call : Answer
  answered : Response → Answer

answered_by : Rosie × Response → Rosie × Answer
answered_by (r, x) = (r, answered x)

pub add_chores : List Chore → Rosie → Rosie × Answer
unfolding answered_by
add_chores [] r = (r, no_call)
add_chores (c ∷ cs) r = answered_by (serve r (add_request (c ∷ cs)))

unfoldable pub add : Bytes → Rosie → Rosie × Answer
unfolding add_chores
add s r = add_chores (new_chores s) r

complete_number : Option ℤ → Rosie → Rosie × Answer
unfolding answered_by
complete_number none r = (r, bad_number)
complete_number (some i) r = answered_by (serve r (complete_request (to_int32 i)))

unfoldable pub complete : Bytes → Rosie → Rosie × Answer
unfolding complete_number
complete s r = complete_number (atoi s) r

pub show : List Chore → Listing
show [] = nothing_to_do
show (c ∷ cs) = table (rows_from 0 (c ∷ cs))

-- `List` answers with chores alone.
listing : Rosie × Response → Rosie × Listing
unfolding show
listing (r, chores_response cs) = (r, show cs)
listing (r, success) = (r, show [])
listing (r, not_found i) = (r, show [])

unfoldable pub list : Rosie → Rosie × Listing
unfolding listing
list r = listing (serve r list_request)

-- Whether a command ends in an error, by which `main` exits.
pub failed : Answer → Bool
failed bad_number = true
failed no_call = false
failed (answered (not_found i)) = true
failed (answered success) = false
failed (answered (chores_response cs)) = false

-- The `switch` of `main`.
unfoldable pub run : List Bytes → Rosie → Rosie × Answer
unfolding add complete
run args r =
    let command = map to_lower (arg 0 args) in
    if equal command (codes "add")
    then add (join (drop 1 args) (codes " ")) r
    else if equal command (codes "complete")
    then complete (arg 1 args) r
    else (r, no_call)

list_after : Rosie × Answer → Rosie × Option Listing
unfolding list failed
list_after (r, a) = if failed a then (r, none) else let (r', l) = list r in (r', some l)

-- What `main` prints, if no error ends it.
unfoldable pub main : List Bytes → Rosie → Rosie × Option Listing
unfolding list_after
main args r = list_after (run args r)
