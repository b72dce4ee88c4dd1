-- ===== src/Prelude/Int.antt =====
-- Go's `int` where a request may carry a negative value. No arithmetic is done on it that could
-- leave the 64-bit range, so it is an integer without wrap-around.
use Prim.Native.Nat.{ℕ}
use mathlib.Core.Bool.{Bool, true, false}
use stem_computing_desktop_p.Prelude.Tests.{ltb, ◌==◌}

-- `negsuc n` is -(n + 1).
pub data ℤ : Type 0 where
  pos : ℕ → ℤ
  negsuc : ℕ → ℤ

-- i < n, for a bound that is not negative
abbrev pub is_below : ℤ → ℕ → Bool
is_below (pos i) n = ltb i n
is_below (negsuc _) n = true

-- n < i
abbrev pub is_above : ℤ → ℕ → Bool
is_above (pos i) n = ltb n i
is_above (negsuc _) n = false

abbrev pub is_zero : ℤ → Bool
is_zero (pos i) = i == 0
is_zero (negsuc _) = false

abbrev pub pos_part : ℤ → ℕ
pos_part (pos i) = i
pos_part (negsuc _) = 0
