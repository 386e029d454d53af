-- ===== src/Base/Int.antt =====
-- Signed integers over the native numbers. `negsuc n` is -(n + 1).
use Prim.Native.Nat.{ℕ, ◌-◌, ◌^◌, ◌%◌}
use mathlib.Core.Bool.{Bool, true, false}
use traefik_plugin_ipgeoloca.Base.Tests.{ltb, ◌==◌, if◌then◌else◌}

pub data ℤ : Type 0 where
  pos : ℕ → ℤ
  negsuc : ℕ → ℤ

abbrev pub is_negative : ℤ → Bool
is_negative (pos n) = false
is_negative (negsuc n) = true

-- `x > 0`
abbrev pub is_positive : ℤ → Bool
is_positive (pos n) = ltb 0 n
is_positive (negsuc n) = false

-- The magnitude of a negative number is lost: only used where the number is not negative.
abbrev pub pos_part : ℤ → ℕ
pos_part (pos n) = n
pos_part (negsuc n) = 0

-- int32(v) of an unsigned v.
unfoldable pub int32 : ℕ → ℤ
int32 v = let w = v % 2 ^ 32 in if ltb w (2 ^ 31) then pos w else negsuc (2 ^ 32 - w - 1)

-- int64(v) of an unsigned v; also int(v), which has 64 bits here.
unfoldable pub int64 : ℕ → ℤ
int64 v = let w = v % 2 ^ 64 in if ltb w (2 ^ 63) then pos w else negsuc (2 ^ 64 - w - 1)

unfoldable pub eq_ℤ : ℤ → ℤ → Bool
eq_ℤ (pos m) (pos n) = m == n
eq_ℤ (negsuc m) (negsuc n) = m == n
eq_ℤ (pos m) (negsuc n) = false
eq_ℤ (negsuc m) (pos n) = false
