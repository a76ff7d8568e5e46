-- ===== src/Prelude/Int.antt =====
-- Signed integers over the native numbers, under the library's names: `negsuc n` is -(n + 1).
use Prim.Native.Nat.{ℕ}
use mathlib.Core.Bool.{Bool, true, false}
use networking_in_go.Prelude.Tests.{leb}

pub data ℤ : Type 0 where
  pos negsuc : ℕ → ℤ

abbrev pub int_leb : ℤ → ℤ → Bool
int_leb (negsuc m) (negsuc n) = leb n m
int_leb (negsuc m) (pos n) = true
int_leb (pos m) (negsuc n) = false
int_leb (pos m) (pos n) = leb m n
