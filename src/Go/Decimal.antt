-- ===== src/Go/Decimal.antt =====
-- `strconv.Atoi` where `int` has 64 bits, and the conversion of an `int` to an `int32`.
pub mod Printed
use networking_in_go.Prelude.{
  ℕ, ◌+◌, ◌-◌, ◌*◌, ◌%◌, Bool, true, false, ◌&&◌, [], ◌∷◌, Option, none, some, Bytes, ltb, leb,
  ◌==◌, if◌then◌else◌, ℤ, pos, negsuc, refl, inl, inr, List, ◌≡◌, ◌++◌, ◌≤◌, ◌<◌, zero, suc, ap,
  sym, ◌∙◌,
}

-- The number that digits spell behind `n`; anything but a digit is an error.
unfoldable pub digits : Bytes → ℕ → Option ℕ
digits [] n = some n
digits (c ∷ s) n =
    let rest = digits s (n * 10 + (c - b'0')) in if leb b'0' c && leb c b'9' then rest else none

unsigned : Bytes → Option ℕ
unfolding digits
unsigned [] = none
unsigned (c ∷ s) = digits (c ∷ s) 0

-- The limits of an `int`.
in_range : Bool → Option ℕ → Option ℤ
in_range negative none = none
in_range true (some n) =
    if n == 0
    then some (pos 0)
    else if leb n 9223372036854775808
    then some (negsuc (n - 1))
    else none
in_range false (some n) = if ltb n 9223372036854775808 then some (pos n) else none

unfoldable pub atoi : Bytes → Option ℤ
unfolding unsigned in_range
atoi [] = none
atoi (c ∷ s) =
    if c == b'-'
    then in_range true (unsigned s)
    else if c == b'+'
    then in_range false (unsigned s)
    else in_range false (unsigned (c ∷ s))

-- The number that 32 bits stand for.
unfoldable pub signed32 : ℕ → ℤ
signed32 w = if ltb w 2147483648 then pos w else negsuc (4294967296 - w - 1)

-- `int32(i)` keeps the low 32 bits.
unfoldable pub to_int32 : ℤ → ℤ
unfolding signed32
to_int32 (pos n) = signed32 (n % 4294967296)
to_int32 (negsuc n) = signed32 (4294967295 - n % 4294967296)
