-- ===== src/Prelude/Int.antt =====
-- The integers over the native numbers, as far as the program compares them.
use Prim.Native.Nat.{ℕ}
use mathlib.Core.Bool.{Bool, true, false}
use lucid_agent_core.Prelude.Tests.{leb}

-- `negsuc n` is -(n + 1).
pub data ℤ : Type 0 where
  pos : ℕ → ℤ
  negsuc : ℕ → ℤ

-- `n <= z` and `z <= n` for a numeral n of the program, which is never negative.
abbrev pub leb_ℕℤ : ℕ → ℤ → Bool
leb_ℕℤ n (pos m) = leb n m
leb_ℕℤ n (negsuc m) = false

abbrev pub leb_ℤℕ : ℤ → ℕ → Bool
leb_ℤℕ (pos m) n = leb m n
leb_ℤℕ (negsuc m) n = true
