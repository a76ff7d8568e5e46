-- ===== src/Go/Reader.antt =====
-- `io.Reader`, as a network connection is one: a list of chunks. One `Read` gives bytes of the first
-- chunk only, as many as fit; a `Read` into an empty slice gives none. `io.MultiReader` of a
-- `bytes.Reader` and a reader puts a chunk in front.
use networking_in_go.Go.Io.{IoError, eof, unexpected_eof}
use networking_in_go.Prelude.{
  ℕ, zero, suc, ◌-◌, ◌≤◌, List, [], ◌∷◌, ◌++◌, ◌≡◌, ◌≢◌, true, false, take_of_le, refl, arith,
  Bytes, Result, ok, err, leb, ◌==◌, if◌then◌else◌, length, take, drop, take-length-append,
  drop-length-append, length-append,
}

abbrev pub Reader : Type 0
Reader = List Bytes

-- What is left of the first chunk.
unfoldable pub leftover : ℕ → Bytes → Reader → Reader
leftover n c r = if leb (length c) n then r else drop n c ∷ r

unfoldable pub read : ℕ → Reader → Result IoError Bytes × Reader
unfolding leftover
read zero r = (ok [], r)
read (suc n) [] = (err eof, [])
read (suc n) (c ∷ r) = (ok (take (suc n) c), leftover (suc n) c r)

-- The loop of `io.ReadFull`: up to `n` bytes from as many chunks as it takes.
unfoldable pub collect : ℕ → Reader → Bytes × Reader
unfolding leftover
collect n [] = ([], [])
collect n (c ∷ r) =
    let (got, rest) = collect (n - length c) r in
    if leb n (length c) then (take n c, leftover n c r) else (c ++ got, rest)

full_or_error : ℕ → Bytes → Result IoError Bytes
full_or_error n [] = err eof
full_or_error n (b ∷ got) = if length (b ∷ got) == n then ok (b ∷ got) else err unexpected_eof

-- `io.ReadFull` for a buffer that is not empty.
unfoldable pub read_full : ℕ → Reader → Result IoError Bytes × Reader
unfolding collect full_or_error
read_full n r = let (got, rest) = collect n r in (full_or_error n got, rest)

-- Bytes in front of a reader, as a chunk if there is any.
abbrev pub cons_chunk : Bytes → Reader → Reader
cons_chunk [] r = r
cons_chunk (b ∷ c) r = (b ∷ c) ∷ r

pub leftover-append :
    (hd more : Bytes) (r : Reader) → leftover (length hd) (hd ++ more) r ≡ cons_chunk more r
unfolding leftover
leftover-append hd [] r = ground (arith, length-append hd [])
leftover-append hd (b ∷ more) r =
    let e : leb (length (hd ++ b ∷ more)) (length hd) ≡ false =
      ground (arith, length-append hd (b ∷ more)) in
    rw (e, drop-length-append hd (b ∷ more))

pub read_full-append :
    (hd more : Bytes) (r : Reader)
    → hd ≢ []
    → read_full (length hd) ((hd ++ more) ∷ r) ≡ (ok hd, cons_chunk more r)
unfolding read_full
read_full-append [] more r h = absurd (h refl)
read_full-append (b ∷ hd) more r h =
    let e : leb (length (b ∷ hd)) (length (b ∷ hd ++ more)) ≡ true =
      ground (arith, length-append hd more) in
    let full : (length (b ∷ hd) == length (b ∷ hd)) ≡ true = ground arith in
    rw (e, take-length-append hd more, leftover-append (b ∷ hd) more r) (rw full)

-- One `Read` of a whole message, whatever stands behind it in its chunk.
pub read-append :
    (m more : Bytes) (r : Reader)
    → read (length m) (cons_chunk (m ++ more) r) ≡ (ok m, cons_chunk more r)
unfolding read
read-append [] more r = refl
read-append (b ∷ m) more r = rw (take-length-append m more, leftover-append (b ∷ m) more r)

-- One `Read` of more than the chunk holds gives the chunk.
pub read_short :
    (n : ℕ) (c : Bytes) (r : Reader) → c ≢ [] → length c ≤ n → read n (c ∷ r) ≡ (ok c, r)
unfolding read leftover
read_short zero [] r ne h = absurd (ne refl)
read_short zero (b ∷ c) r ne h = absurd (omega arith)
read_short (suc n) c r ne h =
    let e : leb (length c) (suc n) ≡ true = ground arith in rw (e, take_of_le (suc n) c h)
