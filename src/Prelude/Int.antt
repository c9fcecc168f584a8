-- ===== src/Prelude/Int.antt =====
-- The signed machine integers that the program reads and writes as bit patterns.
use rsbinder.Prelude.Tests.{ltb, if◌then◌else◌}
use Prim.Native.Nat.{ℕ, ◌-◌, ◌%◌, ◌^◌, ◌<◌}
use mathlib.Core.Path.{◌≡◌}
use native.Mathlib.Omega.{arith}

-- `negsuc n` is -(n + 1).
pub data ℤ : Type 0 where
  pos : ℕ → ℤ
  negsuc : ℕ → ℤ

-- The values of `i32`.
abbrev pub IsI32 : ℤ → Type 0
IsI32 (pos n) = n < 2 ^ 31
IsI32 (negsuc n) = n < 2 ^ 31

-- `x as u32` and `w as i32`.
unfoldable pub to_u32 : ℤ → ℕ
to_u32 (pos n) = n % 2 ^ 32
to_u32 (negsuc n) = 2 ^ 32 - 1 - n % 2 ^ 32

unfoldable pub as_i32 : ℕ → ℤ
as_i32 w = if ltb w (2 ^ 31) then pos w else negsuc (2 ^ 32 - 1 - w)

pub to_u32-lt : (i : ℤ) → to_u32 i < 2 ^ 32
unfolding to_u32
to_u32-lt (pos n) = omega arith
to_u32-lt (negsuc n) = omega arith

pub as_i32-to_u32 : (i : ℤ) → IsI32 i → as_i32 (to_u32 i) ≡ i
unfolding to_u32 as_i32
as_i32-to_u32 (pos n) h = ground arith
as_i32-to_u32 (negsuc n) h = ground arith

pub to_u32-as_i32 : (w : ℕ) → w < 2 ^ 32 → to_u32 (as_i32 w) ≡ w
unfolding to_u32 as_i32
to_u32-as_i32 w h = ground arith
