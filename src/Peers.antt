-- ===== src/Peers.antt =====
-- chapter7/auth.go: Allowed. The socket option and the user database are parameters.
pub mod Decision
use networking_in_go.Prelude.{
  Bytes, equal, ltb, ◌&&◌, ◌||◌, if◌then◌else◌, ◌==◌, none, some, [], ◌∷◌, true, false, refl, inl,
  inr, Option, List, ◌≡◌, Bool, ℕ, ◌++◌, ◌+◌, ◌-◌, ◌≤◌, ◌<◌, zero, suc, ap, sym, ◌∙◌,
}

-- What `unix.GetsockoptUcred` gives: EINTR, another error, or the peer's user id.
pub data Sockopt : Type 0 where
  interrupted failed : Sockopt
  credentials : ℕ → Sockopt

-- The user database: `user.LookupId`, which on Unix knows users by their ids in decimal, and `GroupIds`.
-- A user goes by the name.
pub record Users : Type 0 where
  pub lookup_id : Bytes → Option Bytes
  pub group_ids : Bytes → Option (List Bytes)
  pub lookup_id_decimal :
      (s : Bytes) (u : Bytes)
      → lookup_id s ≡ some u
      → (c : ℕ) × (r : Bytes) × (s ≡ c ∷ r) × (48 ≤ c) × (c < 58)

-- The conversion of a number to a string: the text of the one code point with that number.
unfoldable pub string_of : ℕ → Bytes
string_of n = if (ltb 0xd7ff n && ltb n 0xe000) || ltb 0x10ffff n then 0xfffd ∷ [] else n ∷ []

-- Whether the map has the key.
unfoldable pub has : Bytes → List Bytes → Bool
has g [] = false
has g (k ∷ ks) = equal g k || has g ks

-- The loop over the group ids.
unfoldable pub any_group : List Bytes → List Bytes → Bool
unfolding has
any_group groups [] = false
any_group groups (g ∷ gs) = has g groups || any_group groups gs

module _ (users : Users) where
  open users use {lookup_id, group_ids}

  check_groups : List Bytes → Option (List Bytes) → Bool
  unfolding any_group
  check_groups groups none = false
  check_groups groups (some gids) = any_group groups gids

  check_user : List Bytes → Option Bytes → Bool
  unfolding check_groups
  check_user groups none = false
  check_user groups (some u) = check_groups groups (group_ids u)

  -- The loop over the calls of `GetsockoptUcred`, and what follows it. No result: it still tries.
  ask : List Bytes → List Sockopt → Option Bool
  unfolding check_user string_of
  ask groups [] = none
  ask groups (interrupted ∷ rest) = ask groups rest
  ask groups (failed ∷ rest) = some false
  ask groups (credentials uid ∷ rest) = some (check_user groups (lookup_id (string_of uid)))

  ask_for : Option (List Bytes) → List Sockopt → Option Bool
  unfolding ask
  ask_for none calls = some false
  ask_for (some []) calls = some false
  ask_for (some (g ∷ gs)) calls = ask (g ∷ gs) calls

  -- The first argument is `conn == nil`; a nil map is `none`.
  unfoldable pub allowed : Bool → Option (List Bytes) → List Sockopt → Option Bool
  unfolding ask_for
  allowed true groups calls = some false
  allowed false groups calls = ask_for groups calls
