-- ===== src/Prelude/Int.antt =====
-- Python's integers, where the program tests a sign.
use Prim.Native.Nat.{ℕ}
use mathlib.Core.Bool.{Bool, true, false, ◌&&◌}
use eidolon_data.Prelude.Tests.{ltb, leb}

-- `negsuc n` is -(n + 1).
pub data ℤ : Type 0 where
  pos : ℕ → ℤ
  negsuc : ℕ → ℤ

-- the value, with 0 for what is negative
abbrev pub pos_part : ℤ → ℕ
pos_part (pos n) = n
pos_part (negsuc n) = 0

-- `i < n`
abbrev pub ltb_ℤ : ℤ → ℕ → Bool
ltb_ℤ (pos i) n = ltb i n
ltb_ℤ (negsuc i) n = true

-- `lo <= i <= hi`
abbrev pub in_range : ℕ → ℤ → ℕ → Bool
in_range lo (pos i) hi = leb lo i && leb i hi
in_range lo (negsuc i) hi = false
