-- ===== src/Chores/Client/Remote.antt =====
-- chapter12/client/client.go: the remote commands against those of homework.go.
use networking_in_go.Chores.Chore.{Chore, mark}
use networking_in_go.Chores.Client.{Answer, answered, answered_by, complete_number, complete}
use networking_in_go.Chores.Robot.{Rosie, complete_request, Response, success, not_found, serve}
use networking_in_go.Chores.Robot.Refinement.{contents, serve_spec, complete_spec, view-serve}
use networking_in_go.Chores.Store.{chore_index}
use networking_in_go.Go.Decimal.{atoi, to_int32}
use networking_in_go.Prelude.{
  ℕ, ◌+◌, ◌-◌, ◌*◌, ◌≤◌, ◌<◌, List, ◌≡◌, refl, arith, Option, none, some, Bytes, length, ℤ, pos,
  negsuc, ◌∙◌, ap,
}

-- The numbers that an int32 holds.
abbrev pub IsInt32 : ℤ → Type 0
IsInt32 (pos n) = n < 2147483648
IsInt32 (negsuc n) = n < 2147483648

to_int32-IsInt32 : (i : ℤ) → IsInt32 i → to_int32 i ≡ i
unfolding to_int32
to_int32-IsInt32 (pos n) h = ground arith
to_int32-IsInt32 (negsuc n) h = ground arith

-- The local command, on a list of chores.
unfoldable pub local : ℤ → Option ℕ → List Chore → List Chore × Answer
local i none cs = (cs, answered (not_found i))
local i (some k) cs = (mark cs k, answered success)

abbrev pub seen : Rosie × Answer → List Chore × Answer
seen (r, a) = (contents r, a)

seen-answered_by : (p : Rosie × Response) → seen (answered_by p) ≡ (contents p.0, answered p.1)
unfolding answered_by
seen-answered_by p = refl

local_spec :
    (i : ℤ) (k : Option ℕ) (cs : List Chore)
    → ((complete_spec i k cs).0, answered (complete_spec i k cs).1) ≡ local i k cs
unfolding complete_spec local
local_spec i none cs = refl
local_spec i (some k) cs = refl

seen-complete :
    (s : Bytes) (r : Rosie) {i : ℤ}
    → atoi s ≡ some i
    → seen (complete s r)
      ≡ local (to_int32 i) (chore_index (to_int32 i) (length (contents r))) (contents r)
unfolding complete complete_number serve_spec
seen-complete s r {i} e =
    rw (e, complete_number)
      (seen-answered_by (serve r (complete_request (to_int32 i)))
        ∙ ap (λ (p : List Chore × Response). (p.0, answered p.1))
            (view-serve r.chores (complete_request (to_int32 i)))
        ∙ local_spec (to_int32 i) (chore_index (to_int32 i) (length (contents r))) (contents r))

-- For a number that an int32 holds the remote `complete` marks the chore, or refuses the number, as the
-- one of homework.go does: by `chore_index`, on the chores that the service holds.
pub complete-local :
    (s : Bytes) (r : Rosie) {i : ℤ}
    → atoi s ≡ some i
    → IsInt32 i
    → seen (complete s r) ≡ local i (chore_index i (length (contents r))) (contents r)
complete-local s r {i} e h =
    seen-complete s r e
    ∙ ap (λ j. local j (chore_index j (length (contents r))) (contents r)) (to_int32-IsInt32 i h)

wrap : (k n : ℕ) → n < 2147483648 → to_int32 (pos (k * 4294967296 + n)) ≡ pos n
unfolding to_int32
wrap k n h = ground arith

pub chore_index_pos : (n len : ℕ) → 1 ≤ n → n ≤ len → chore_index (pos n) len ≡ some (n - 1)
unfolding chore_index
chore_index_pos n len h k = ground arith

chore_index_large : (n len : ℕ) → len < n → chore_index (pos n) len ≡ none
unfolding chore_index
chore_index_large n len h = ground arith

-- A number that is larger than every chore's is cut to 32 bits: the remote `complete` marks the chore
-- whose number is left, and answers with success, where the one of homework.go finds no chore.
pub complete_wraps :
    (s : Bytes) (r : Rosie) (k n : ℕ)
    → atoi s ≡ some (pos (k * 4294967296 + n))
    → 1 ≤ n
    → n ≤ length (contents r)
    → n < 2147483648
    → length (contents r) < k * 4294967296 + n
    → (seen (complete s r) ≡ (mark (contents r) (n - 1), answered success))
      × (chore_index (pos (k * 4294967296 + n)) (length (contents r)) ≡ none)
unfolding local
complete_wraps s r k n e pos_n le small large = (
  seen-complete s r e ∙ rw (wrap k n small, chore_index_pos n (length (contents r)) pos_n le),
  chore_index_large (k * 4294967296 + n) (length (contents r)) large,
)
