-- ===== src/Prelude/Strings.antt =====
-- Byte strings: `[]byte` and `string` are lists of numbers below 256.
use Prim.Native.Char.{code}
use Prim.Native.Nat.{ℕ}
use Prim.Native.String.{String}
use mathlib.Core.Bool.{Bool, true, false}
use mathlib.Core.Logic.{◌↔◌}
use mathlib.Core.List.{List, [], ◌∷◌}
use mathlib.Core.Path.{◌≡◌, refl}
use native.Mathlib.Omega.{arith}
use networking_in_go.Prelude.Tests.{◌==◌, if◌then◌else◌}

abbrev pub Bytes : Type 0
Bytes = List ℕ

-- The code points of a text; every literal of the sources is ASCII.
abbrev pub codes : String → Bytes
codes String.[] = []
codes (String.◌∷◌ c s) = code c ∷ codes s

abbrev is_empty : Bytes → Bool
is_empty [] = true
is_empty (b ∷ s) = false

-- `==` on strings.
unfoldable pub equal : Bytes → Bytes → Bool
equal [] t = is_empty t
equal (a ∷ s) [] = false
equal (a ∷ s) (b ∷ t) = if a == b then equal s t else false

pub equal_sound : (s t : Bytes) → equal s t ≡ true → s ≡ t
unfolding equal
equal_sound [] [] h = refl
equal_sound [] (b ∷ t) h = cc
equal_sound (a ∷ s) [] h = cc
equal_sound (a ∷ s) (b ∷ t) h = ground (arith, equal_sound s t)

pub equal_self : (s : Bytes) → equal s s ≡ true
unfolding equal
equal_self [] = refl
equal_self (a ∷ s) = ground (arith, equal_self s)

pub equal_iff : (s t : Bytes) → (equal s t ≡ true) ↔ (s ≡ t)
equal_iff s t = (equal_sound s t, λ e. rw e (equal_self t))

pub equal_apart : (s t : Bytes) → equal s t ≡ false → equal t s ≡ false
unfolding equal
equal_apart [] [] h = h
equal_apart [] (b ∷ t) h = refl
equal_apart (a ∷ s) [] h = refl
equal_apart (a ∷ s) (b ∷ t) h = ground (arith, equal_apart s t)
