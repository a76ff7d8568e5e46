-- ===== src/Chores/Robot.antt =====
-- chapter12/server/robot.go: `Rosie`. A handler holds the mutex from its first line to its last, so
-- what clients do at the same time is one sequence of handler calls. A `nil` slice is `none`. The
-- response of `List` is as the handler returns it; Shared has what the client gets of it later.
pub mod Refinement
pub mod Shared
use networking_in_go.Chores.Chore.{Chore, mark}
use networking_in_go.Prelude.{
  ℕ, ◌-◌, Bool, true, false, ◌||◌, List, [], ◌∷◌, ◌++◌, Option, none, some, ltb, ◌==◌,
  if◌then◌else◌, length, ℤ, pos, negsuc,
}

pub record Rosie : Type 0 where
  pub chores : Option (List Chore)

-- The service's messages: `CompleteRequest` carries an int32.
pub data Request : Type 0 where
  add_request : List Chore → Request
  complete_request : ℤ → Request
  list_request : Request

pub data Response : Type 0 where
  success : Response
  chores_response : List Chore → Response
  not_found : ℤ → Response

-- `append`: a nil slice stays nil where nothing is appended.
append_slice : Option (List Chore) → List Chore → Option (List Chore)
append_slice none [] = none
append_slice none (c ∷ cs) = some (c ∷ cs)
append_slice (some xs) cs = some (xs ++ cs)

pub add : Rosie → List Chore → Rosie × Response
unfolding append_slice
add r cs = (record r { chores = append_slice r.chores cs }, success)

-- On a slice that is not nil.
complete_in : Rosie → ℤ → List Chore → Rosie × Response
complete_in r (negsuc n) xs = (r, not_found (negsuc n))
complete_in r (pos n) xs =
    if ltb n 1 || ltb (length xs) n
    then (r, not_found (pos n))
    else (record r { chores = some (mark xs (n - 1)) }, success)

complete_slice : Rosie → ℤ → Option (List Chore) → Rosie × Response
unfolding complete_in
complete_slice r i none = (r, not_found i)
complete_slice r i (some xs) = complete_in r i xs

pub complete : Rosie → ℤ → Rosie × Response
unfolding complete_slice
complete r i = complete_slice r i r.chores

unfoldable pub list_slice : Option (List Chore) → Rosie × Response
list_slice none = (record { chores = some [] }, chores_response [])
list_slice (some xs) = (record { chores = some xs }, chores_response xs)

unfoldable pub list : Rosie → Rosie × Response
unfolding list_slice
list r = list_slice r.chores

unfoldable pub serve : Rosie → Request → Rosie × Response
unfolding add complete list
serve r (add_request cs) = add r cs
serve r (complete_request i) = complete r i
serve r list_request = list r

-- The handler calls of all clients, in the order in which they take the mutex.
unfoldable pub serve_all : Rosie → List Request → Rosie × List Response
unfolding serve
serve_all r [] = (r, [])
serve_all r (q ∷ qs) = let (r', x) = serve r q in let (last, xs) = serve_all r' qs in (last, x ∷ xs)
