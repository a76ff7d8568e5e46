-- ===== src/Go/Writer.antt =====
-- `io.Writer`: what was written, and how much more it takes before it fails.
use networking_in_go.Prelude.{
  ℕ, ◌-◌, ◌≤◌, ◌++◌, ◌≡◌, arith, Bool, true, false, Bytes, leb, if◌then◌else◌, length, take,
  length-append, ap₂, append_assoc,
}

pub record Writer : Type 0 where
  pub out : Bytes
  pub room : ℕ

-- The number of bytes written, whether there was no error, and the writer.
unfoldable pub write : Bytes → Writer → ℕ × Bool × Writer
write p w =
    if leb (length p) w.room
    then (length p, true, record w { out = w.out ++ p; room = w.room - length p })
    else (w.room, false, record w { out = w.out ++ take w.room p; room = 0 })

-- A writer that has taken the bytes.
abbrev pub written : Writer → Bytes → Writer
written w p = record { out = w.out ++ p; room = w.room - length p }

pub write_room :
    (p : Bytes) (w : Writer) → length p ≤ w.room → write p w ≡ (length p, true, written w p)
unfolding write
write_room p w h = let e : leb (length p) w.room ≡ true = ground arith in rw e

pub written-written : (w : Writer) (p q : Bytes) → written (written w p) q ≡ written w (p ++ q)
written-written w p q =
    let e : w.room - length p - length q ≡ w.room - length (p ++ q) =
      omega (arith, length-append p q) in
    ap₂ (λ o n. record { out = o; room = n }) (append_assoc w.out p q) e
