-- ===== src/Prelude/Int.antt =====
-- Signed integers, for the int32 status codes that Google sends.
use Prim.Native.Nat.{ℕ}
use mathlib.Core.Bool.{Bool, true, false}
use agent_gm.Prelude.Tests.{◌==◌, leb}

-- `negsuc n` is -(n + 1).
pub data ℤ : Type 0 where
  pos : ℕ → ℤ
  negsuc : ℕ → ℤ

-- lo <= z && z <= hi, at natural bounds.
abbrev pub between : ℕ → ℕ → ℤ → Bool
between lo hi (pos n) = elim (leb lo n) [ true ↦ leb n hi | false ↦ false ]
between lo hi (negsuc n) = false

abbrev pub eqz : ℤ → ℤ → Bool
eqz (pos a) (pos b) = a == b
eqz (negsuc a) (negsuc b) = a == b
eqz _ _ = false
