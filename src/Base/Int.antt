-- ===== src/Base/Int.antt =====
-- Go's signed integers, as far as the program uses them: comparison and the conversion to int32.
use Prim.Native.Nat.{ℕ, ◌-◌, ◌%◌, ◌^◌, ◌<◌}
use mathlib.Core.Path.{◌≡◌}
use mathlib.Core.Bool.{Bool, true, false}
use native.Mathlib.Omega.{arith}
use cluster_api_control_plan.Base.Tests.{ltb, nat_eq, if◌then◌else◌}

-- `negsuc n` is -(n + 1).
pub data ℤ : Type 0 where
  pos : ℕ → ℤ
  negsuc : ℕ → ℤ

-- The negative of a number.
abbrev pub neg : ℕ → ℤ
neg n = if nat_eq n 0 then pos 0 else negsuc (n - 1)

abbrev pub eqb : ℤ → ℤ → Bool
eqb (pos a) (pos b) = nat_eq a b
eqb (negsuc a) (negsuc b) = nat_eq a b
eqb _ _ = false

-- The low 32 bits of a number, read as a signed number.
abbrev signed32 : ℕ → ℤ
signed32 u = if ltb u (2 ^ 31) then pos u else neg (2 ^ 32 - u)

-- int32(x) of an int64, which keeps the low 32 bits.
unfoldable pub int32 : ℤ → ℤ
int32 (pos n) = signed32 (n % 2 ^ 32)
int32 (negsuc n) = signed32 (2 ^ 32 - 1 - n % 2 ^ 32)

pub int32_in_range : (n : ℕ) → n < 2 ^ 31 → int32 (pos n) ≡ pos n
unfolding int32
int32_in_range n h = ground arith

pub eqb_refl : (a : ℤ) → eqb a a ≡ true
eqb_refl (pos a) = ground arith
eqb_refl (negsuc a) = ground arith
