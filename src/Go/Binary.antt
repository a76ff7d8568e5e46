-- ===== src/Go/Binary.antt =====
-- `encoding/binary` in big-endian order, over the unread bytes of a `bytes.Buffer` or a
-- `bytes.Reader`. `binary.Read` is `io.ReadFull`: no byte is `EOF`, too few are `ErrUnexpectedEOF`.
use networking_in_go.Go.Io.{IoError, eof, unexpected_eof}
use networking_in_go.Prelude.{
  ℕ, ◌+◌, ◌*◌, ◌/◌, ◌%◌, ◌<◌, [], ◌∷◌, ◌++◌, ◌≡◌, arith, Bytes, All, Result, ok, err,
}

unfoldable pub put_u16 : ℕ → Bytes
put_u16 n = (n / 256 % 256) ∷ (n % 256) ∷ []

unfoldable pub get_u16 : Bytes → Result IoError (ℕ × Bytes)
get_u16 [] = err eof
get_u16 (a ∷ []) = err unexpected_eof
get_u16 (a ∷ b ∷ r) = ok (a * 256 + b, r)

pub get_u16-put_u16 : (n : ℕ) (r : Bytes) → n < 65536 → get_u16 (put_u16 n ++ r) ≡ ok (n, r)
unfolding get_u16 put_u16
get_u16-put_u16 n r h = ground arith

abbrev pub IsByte : ℕ → Type 0
IsByte b = b < 256

pub put_u16-IsByte : (n : ℕ) → All IsByte (put_u16 n)
unfolding put_u16
put_u16-IsByte n = omega arith

unfoldable pub put_u32 : ℕ → Bytes
put_u32 n = (n / 16777216 % 256) ∷ (n / 65536 % 256) ∷ (n / 256 % 256) ∷ (n % 256) ∷ []

-- The number that four bytes stand for.
unfoldable pub get_u32 : Bytes → ℕ
get_u32 (a ∷ b ∷ c ∷ d ∷ r) = a * 16777216 + b * 65536 + c * 256 + d
get_u32 r = 0

pub get_u32-put_u32 : (n : ℕ) → n < 4294967296 → get_u32 (put_u32 n) ≡ n
unfolding get_u32 put_u32
get_u32-put_u32 n h = omega arith
