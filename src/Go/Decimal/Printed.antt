-- ===== src/Go/Decimal/Printed.antt =====
-- The verb %d of `fmt.Sprintf`, for a number that is not negative.
use networking_in_go.Go.Decimal.{digits}
use networking_in_go.Prelude.{
  leb, true, ap, ℕ, zero, suc, ◌+◌, ◌-◌, ◌*◌, ◌/◌, ◌%◌, ◌<◌, [], ◌∷◌, some, Bytes, ltb, ◌≡◌, refl,
  arith, if◌then◌else◌, Bool-cases, inl, inr, ◌∙◌, true, ap,
}

-- The digits of a number, in front of those that are there.
unfoldable pub put_digits : ℕ → ℕ → Bytes → Bytes
put_digits zero n s = s
put_digits (suc fuel) n s =
    let rest = put_digits fuel (n / 10) ((b'0' + n % 10) ∷ s) in
    if ltb n 10 then (b'0' + n) ∷ s else rest

-- A number has no more digits than its successor says.
unfoldable pub sprintf_d : ℕ → Bytes
unfolding put_digits
sprintf_d n = put_digits (suc n) n []

digits-digit : (d n : ℕ) (s : Bytes) → d < 10 → digits ((b'0' + d) ∷ s) n ≡ digits s (n * 10 + d)
unfolding digits
digits-digit d n s h =
    let same : b'0' + d - b'0' ≡ d = omega arith in
    let low : leb b'0' (b'0' + d) ≡ true = ground arith in
    let high : leb (b'0' + d) b'9' ≡ true = ground arith in rw (low, high, same) refl

digits-put_digits :
    (fuel n : ℕ) (s : Bytes) → n < fuel → digits (put_digits fuel n s) 0 ≡ digits s n
unfolding put_digits
digits-put_digits zero n s h = absurd (omega arith)
digits-put_digits (suc fuel) n s h = elim (Bool-cases (ltb n 10)) [
  | inl e ↦ rw e (digits-digit n 0 s (ground arith) ∙ ap (digits s) (omega arith))
  | inr e ↦ rw e (
      digits-put_digits fuel (n / 10) ((b'0' + n % 10) ∷ s) (ground arith)
      ∙ digits-digit (n % 10) (n / 10) s (omega arith)
      ∙ ap (digits s) (omega arith))
]

-- The text of a number is read back as the number.
pub digits-sprintf_d : (n : ℕ) → digits (sprintf_d n) 0 ≡ some n
unfolding sprintf_d digits
digits-sprintf_d n = digits-put_digits (suc n) n [] (omega arith)
