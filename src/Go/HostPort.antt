-- ===== src/Go/HostPort.antt =====
-- `net.SplitHostPort`, as far as the host.
use networking_in_go.Go.Fields.{Free}
use networking_in_go.Prelude.{
  ℕ, ◌==◌, Bool, false, ◌||◌, [], ◌∷◌, ◌++◌, Option, none, some, Bytes, if◌then◌else◌, ◌≡◌, ◌≢◌,
  refl, ap, ◌∙◌, arith,
}

unfoldable pub contains_byte : ℕ → Bytes → Bool
contains_byte b [] = false
contains_byte b (c ∷ s) = c == b || contains_byte b s

split_last_step : ℕ → ℕ → Bytes → Option (Bytes × Bytes) → Option (Bytes × Bytes)
split_last_step b c s none = if c == b then some ([], s) else none
split_last_step b c s (some (front, rest)) = some (c ∷ front, rest)

-- What stands before and behind the last of these bytes.
unfoldable pub split_last : ℕ → Bytes → Option (Bytes × Bytes)
unfolding split_last_step
split_last b [] = none
split_last b (c ∷ s) = split_last_step b c s (split_last b s)

put_front : ℕ → Option Bytes → Option Bytes
put_front c none = none
put_front c (some s) = some (c ∷ s)

only_end : Bytes → Option Bytes
only_end [] = some []
only_end (c ∷ s) = none

-- What stands before the first `]`, which must be the last byte.
unfoldable pub closing : Bytes → Option Bytes
unfolding put_front only_end
closing [] = none
closing (c ∷ s) = let rest = put_front c (closing s) in if c == b']' then only_end s else rest

bracketed : Bytes → Option Bytes → Option Bytes
bracketed port none = none
bracketed port (some host) =
    if contains_byte b'[' host || contains_byte b'[' port || contains_byte b']' port
    then none
    else some host

plain : Bytes → Bytes → Option Bytes
plain port host =
    if contains_byte b':' host
      || contains_byte b'[' host
      || contains_byte b'[' port
      || contains_byte b']' host
      || contains_byte b']' port
    then none
    else some host

host_of : Bytes → Bytes → Option Bytes
unfolding plain bracketed
host_of [] port = plain port []
host_of (c ∷ s) port = if c == b'[' then bracketed port (closing s) else plain port (c ∷ s)

host_before : Option (Bytes × Bytes) → Option Bytes
unfolding host_of
host_before none = none
host_before (some (front, port)) = host_of front port

-- The host, or none where there is an error.
unfoldable pub split_host : Bytes → Option Bytes
unfolding host_before split_last
split_host s = host_before (split_last b':' s)

contains_byte-Free : (b : ℕ) (s : Bytes) → Free b s → contains_byte b s ≡ false
unfolding contains_byte
contains_byte-Free b [] h = refl
contains_byte-Free b (c ∷ s) h =
    let other : c ≢ b = h.0 in ground (arith, contains_byte-Free b s h.1)

split_last-Free : (b : ℕ) (s : Bytes) → Free b s → split_last b s ≡ none
unfolding split_last split_last_step
split_last-Free b [] h = refl
split_last-Free b (c ∷ s) h = let other : c ≢ b = h.0 in rw (split_last-Free b s h.1) (ground arith)

split_last-append :
    (b : ℕ) (front rest : Bytes)
    → Free b rest
    → split_last b (front ++ b ∷ rest) ≡ some (front, rest)
unfolding split_last split_last_step
split_last-append b [] rest h = rw (split_last-Free b rest h) (ground arith)
split_last-append b (c ∷ front) rest h = rw (split_last-append b front rest h) refl

closing-append : (s : Bytes) → Free b']' s → closing (s ++ b']' ∷ []) ≡ some s
unfolding closing put_front only_end
closing-append [] h = refl
closing-append (c ∷ s) h =
    let other : (c == b']') ≡ false = (let ne : c ≢ b']' = h.0 in ground arith) in
    rw (other, closing-append s h.1) refl

-- A port, and a host without brackets: in none of them is a byte that separates.
abbrev pub IsPort : Bytes → Type 0
IsPort s = Free b':' s × Free b'[' s × Free b']' s

plain_lem : (host port : Bytes) → IsPort host → IsPort port → plain port host ≡ some host
unfolding plain
plain_lem host port h k =
    rw
      (
        contains_byte-Free b':' host h.0,
        contains_byte-Free b'[' host h.1,
        contains_byte-Free b'[' port k.1,
        contains_byte-Free b']' host h.2,
        contains_byte-Free b']' port k.2,
        plain,
      )
      refl

host_of-plain : (host port : Bytes) → IsPort host → IsPort port → host_of host port ≡ some host
unfolding host_of
host_of-plain [] port h k = plain_lem [] port h k
host_of-plain (c ∷ s) port h k =
    let other : (c == b'[') ≡ false = (let ne : c ≢ b'[' = h.1.0 in ground arith) in
    rw other (plain_lem (c ∷ s) port h k)

-- "host:port" has its host, where neither has a byte that separates.
pub split_host-plain :
    (host port : Bytes) → IsPort host → IsPort port → split_host (host ++ b':' ∷ port) ≡ some host
unfolding split_host host_before
split_host-plain host port h k =
    ap host_before (split_last-append b':' host port k.0) ∙ host_of-plain host port h k

-- "[host]:port" has its host, which may have colons.
pub split_host-bracketed :
    (host port : Bytes)
    → Free b'[' host
    → Free b']' host
    → IsPort port
    → split_host ((b'[' ∷ (host ++ b']' ∷ [])) ++ b':' ∷ port) ≡ some host
unfolding split_host host_before host_of bracketed
split_host-bracketed host port h h' k =
    ap host_before (split_last-append b':' (b'[' ∷ (host ++ b']' ∷ [])) port k.0)
    ∙ ap (bracketed port) (closing-append host h')
    ∙ rw
        (
          contains_byte-Free b'[' host h,
          contains_byte-Free b'[' port k.1,
          contains_byte-Free b']' port k.2,
        )
        refl
