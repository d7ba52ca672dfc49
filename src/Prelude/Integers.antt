-- ===== src/Prelude/Integers.antt =====
-- Integers, for the signed words of the source.
use Prim.Native.Nat.{ℕ, suc, ◌+◌, ◌-◌, ◌^◌, ◌≤◌, ◌<◌}
use mathlib.Core.Path.{◌≡◌}
use native.Mathlib.Omega.{arith}
use xhubv.Prelude.Tests.{ltb, leb, if◌then◌else◌}

-- `negsuc n` is -(n + 1).
pub data ℤ : Type 0 where
  pos negsuc : ℕ → ℤ

infixl 60 ◌+ℤ◌
unfoldable pub ◌+ℤ◌ : ℤ → ℤ → ℤ
ℤ.pos a +ℤ ℤ.pos b = ℤ.pos (a + b)
ℤ.pos a +ℤ ℤ.negsuc b = if leb (suc b) a then ℤ.pos (a - suc b) else ℤ.negsuc (b - a)
ℤ.negsuc a +ℤ ℤ.pos b = if leb (suc a) b then ℤ.pos (b - suc a) else ℤ.negsuc (a - b)
ℤ.negsuc a +ℤ ℤ.negsuc b = ℤ.negsuc (suc (a + b))

-- The int64 that a 64-bit word is converted to.
unfoldable pub to_int64 : ℕ → ℤ
to_int64 w = if ltb w (2 ^ 63) then ℤ.pos w else ℤ.negsuc (2 ^ 64 - suc w)

pub to_int64-pos : (w : ℕ) → w < 2 ^ 63 → to_int64 w ≡ ℤ.pos w
unfolding to_int64
to_int64-pos w h = ground arith

-- A word in the upper half is as far below zero as it is below 2 ^ 64.
pub to_int64-negsuc : (w n : ℕ) → 2 ^ 63 ≤ w → w + suc n ≡ 2 ^ 64 → to_int64 w ≡ ℤ.negsuc n
unfolding to_int64
to_int64-negsuc w n h e = ground arith
