-- ===== src/Go/Text.antt =====
-- `bytes.Buffer.ReadString`, `strings.TrimRight` and `strings.ToLower`.

use networking_in_go.Prelude.{
  ℕ, ◌+◌, Bool, true, false, ◌&&◌, [], ◌∷◌, ◌++◌, ◌≡◌, ◌≢◌, refl, arith, Bytes, All, leb, ◌==◌,
  if◌then◌else◌, inl, inr, Bool-cases,
}

-- The bytes up to and with the delimiter, the bytes behind it, and whether it was found.
unfoldable pub read_string : ℕ → Bytes → Bytes × Bytes × Bool
read_string d [] = ([], [], false)
read_string d (x ∷ xs) =
    let (s, r, found) = read_string d xs in if x == d then (x ∷ [], xs, true) else (x ∷ s, r, found)

-- Put one byte in front of a trimmed text.
trim_step : ℕ → ℕ → Bytes → Bytes
trim_step c x [] = if x == c then [] else x ∷ []
trim_step c x (y ∷ ys) = x ∷ y ∷ ys

-- `strings.TrimRight(s, c)` for a cutset of one byte.
unfoldable pub trim_right : ℕ → Bytes → Bytes
unfolding trim_step
trim_right c [] = []
trim_right c (x ∷ xs) = trim_step c x (trim_right c xs)

-- `unicode.ToLower` on ASCII. The programs only compare the result with words such as "octet",
-- whose letters no other rune has for its lower case.
unfoldable pub to_lower : ℕ → ℕ
to_lower c = if leb b'A' c && leb c b'Z' then c + 32 else c

-- The byte `c` is not in the text.
abbrev pub Lacks : ℕ → Bytes → Type 0
Lacks c = All (λ x. x ≢ c)

module _ (d : ℕ) where
  pub read_string-append :
      (s rest : Bytes) → Lacks d s → read_string d (s ++ d ∷ rest) ≡ (s ++ d ∷ [], rest, true)
  unfolding read_string
  read_string-append [] rest h = ground arith
  read_string-append (x ∷ s) rest h = ground (arith, read_string-append s rest h.1)

  pub read_string-Lacks : (s : Bytes) → Lacks d s → read_string d s ≡ (s, [], false)
  unfolding read_string
  read_string-Lacks [] h = refl
  read_string-Lacks (x ∷ s) h = ground (arith, read_string-Lacks s h.1)

  -- What a found delimiter says of the text.
  pub read_string_found :
      (p : Bytes)
      → (read_string d p).2 ≡ true
      → (s : Bytes) × Lacks d s
        × ((read_string d p).0 ≡ s ++ d ∷ [])
        × (p ≡ s ++ d ∷ (read_string d p).1)
  unfolding read_string
  read_string_found [] h = cc
  read_string_found (x ∷ xs) h = elim (Bool-cases (x == d)) [
    | inl e ↦ ([], tt, ground arith, ground arith)
    | inr e ↦
        let (s, l, a, b) = read_string_found xs (ground arith) in
        (x ∷ s, (ground arith, l), ground arith, ground arith)
  ]

  trim_right_tail : (x : ℕ) (s : Bytes) → x ≢ d → trim_right d (x ∷ s) ≡ x ∷ trim_right d s
  unfolding trim_right
  trim_right_tail x s h = ground arith

  -- A text that lacks the byte is left alone, and loses the one behind it.
  pub trim_right-append : (s : Bytes) → Lacks d s → trim_right d (s ++ d ∷ []) ≡ s
  trim_right-append [] h = unfold trim_right in ground arith
  trim_right-append (x ∷ s) h =
      let ih = trim_right-append s h.1 in ground (arith, trim_right_tail x (s ++ d ∷ []) h.0, ih)
