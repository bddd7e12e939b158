-- ===== src/Base/Int.antt =====
-- Signed results of system calls, as integers over the native numbers.
use Prim.Native.Nat.{ℕ, zero}
use mathlib.Core.Bool.{Bool, true, false}
use ustat.Base.Tests.{leb}

-- `negsuc n` is -(n + 1).
pub data ℤ : Type 0 where
  pos : ℕ → ℤ
  negsuc : ℕ → ℤ

-- `n >= z`
abbrev pub geb_ℤ : ℕ → ℤ → Bool
geb_ℤ n (pos m) = leb m n
geb_ℤ n (negsuc m) = true

abbrev pub is_pos : ℤ → Bool
is_pos (pos zero) = false
is_pos (pos n) = true
is_pos (negsuc n) = false

-- An integer as a truth value.
abbrev pub is_set : ℤ → Bool
is_set (pos zero) = false
is_set (pos n) = true
is_set (negsuc n) = true
