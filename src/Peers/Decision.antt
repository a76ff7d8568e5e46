-- ===== src/Peers/Decision.antt =====
-- chapter7/auth.go: whom Allowed lets in.
use networking_in_go.Peers.{
  Sockopt, interrupted, failed, credentials, Users, string_of, has, any_group, check_groups,
  check_user, ask, ask_for, allowed,
}
use mathlib.Core.Option.{some-injective}
use networking_in_go.Prelude.{
  Bytes, arith, Bool-cases, get_elem?, none, some, [], ◌∷◌, true, false, inl, inr, Option, List,
  ◌≡◌, ℕ, ◌≤◌, ◌<◌, suc, refl,
}

pub any_group_found :
    (groups gids : List Bytes)
    → any_group groups gids ≡ true
    → (i : ℕ) × (g : Bytes) × (get_elem? gids i ≡ some g) × (has g groups ≡ true)
unfolding any_group
any_group_found groups [] h = cc
any_group_found groups (g ∷ gs) h = elim (Bool-cases (has g groups)) [
  | inl e ↦ (0, g, refl, e)
  | inr e ↦ let (i, g', f, k) = any_group_found groups gs (rw e at h) in (suc i, g', f, k)
]

module _ (users : Users) where
  open users use {lookup_id, group_ids, lookup_id_decimal}

  -- Whom the system names as the peer, once the interrupted calls are passed over.
  pub peer : List Sockopt → Option ℕ
  peer [] = none
  peer (interrupted ∷ rest) = peer rest
  peer (failed ∷ rest) = none
  peer (credentials uid ∷ rest) = some uid

  ask-true :
      (groups : List Bytes) (calls : List Sockopt)
      → ask users groups calls ≡ some true
      → (uid : ℕ) × (peer calls ≡ some uid)
        × (check_user users groups (lookup_id (string_of uid)) ≡ true)
  unfolding ask peer
  ask-true groups [] h = cc
  ask-true groups (interrupted ∷ rest) h = ask-true groups rest h
  ask-true groups (failed ∷ rest) h = cc
  ask-true groups (credentials uid ∷ rest) h = (uid, refl, some-injective _ _ h)

  check_user-true :
      (groups : List Bytes) (o : Option Bytes)
      → check_user users groups o ≡ true
      → (u : Bytes) × (o ≡ some u) × (check_groups users groups (group_ids u) ≡ true)
  unfolding check_user
  check_user-true groups none h = cc
  check_user-true groups (some u) h = (u, refl, h)

  check_groups-true :
      (groups : List Bytes) (o : Option (List Bytes))
      → check_groups users groups o ≡ true
      → (gids : List Bytes) × (o ≡ some gids) × (any_group groups gids ≡ true)
  unfolding check_groups
  check_groups-true groups none h = cc
  check_groups-true groups (some gids) h = (gids, refl, h)

  ask_for-true :
      (groups : Option (List Bytes)) (calls : List Sockopt)
      → ask_for users groups calls ≡ some true
      → (gs : List Bytes) × (groups ≡ some gs) × (ask users gs calls ≡ some true)
  unfolding ask_for
  ask_for-true none calls h = cc
  ask_for-true (some []) calls h = cc
  ask_for-true (some (g ∷ gs)) calls h = (g ∷ gs, refl, h)

  -- A connection that is not nil is let in only if the system names a peer, the user database has a
  -- user under the text that the code makes of the peer's id, and one of that user's groups is
  -- among the given ones.
  pub allowed-true :
      (groups : Option (List Bytes)) (calls : List Sockopt)
      → allowed users false groups calls ≡ some true
      → (uid : ℕ) × (u : Bytes) × (gids gs : List Bytes) × (i : ℕ) × (g : Bytes) × (peer calls
          ≡ some uid)
        × (lookup_id (string_of uid) ≡ some u)
        × (group_ids u ≡ some gids)
        × (get_elem? gids i ≡ some g)
        × (groups ≡ some gs)
        × (has g gs ≡ true)
  unfolding allowed
  allowed-true groups calls h =
      let (gs, e, a) = ask_for-true groups calls h in
      let (uid, p, c) = ask-true gs calls a in
      let (u, l, c') = check_user-true gs (lookup_id (string_of uid)) c in
      let (gids, m, c'') = check_groups-true gs (group_ids u) c' in
      let (i, g, f, k) = any_group_found gs gids c'' in (uid, u, gids, gs, i, g, p, l, m, f, e, k)

  string_of_digit :
      (uid c : ℕ) (r : Bytes) → string_of uid ≡ c ∷ r → 48 ≤ c → c < 58 → (48 ≤ uid) × (uid < 58)
  unfolding string_of
  string_of_digit uid c r h lo hi = ground arith

  -- The id of a peer that is let in is one of 48 to 57, the code points of the digits: every other user is
  -- refused, whatever groups the user is in and the caller names.
  pub allowed_digits :
      (groups : Option (List Bytes)) (calls : List Sockopt)
      → allowed users false groups calls ≡ some true
      → (uid : ℕ) × (peer calls ≡ some uid) × (48 ≤ uid) × (uid < 58)
  allowed_digits groups calls h =
      let (uid, u, gids, gs, i, g, p, l, m, f, e', k) = allowed-true groups calls h in
      let (c, r, e, lo, hi) = lookup_id_decimal (string_of uid) u l in
      let (lo', hi') = string_of_digit uid c r e lo hi in (uid, p, lo', hi')
