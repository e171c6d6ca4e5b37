-- ===== src/Prelude/Int.antt =====
-- C++ integers: an `int` is the integer that it stands for, a `uint32_t` its number.
use Prim.Native.Nat.{ℕ, ◌-◌, ◌%◌, ◌^◌, ◌<◌}
use mathlib.Core.Path.{◌≡◌, refl}
use mathlib.Core.Logic.{◌↔◌}
use mathlib.Core.Bool.{Bool, true, false}
use native.Mathlib.Omega.{arith}
use my_chat_project.Prelude.Tests.{◌==◌, ltb, if◌then◌else◌}

-- `negsuc n` is -(n + 1).
pub data ℤ : Type 0 where
  pos : ℕ → ℤ
  negsuc : ℕ → ℤ

-- The default id of the model classes, -1.
abbrev pub minus_one : ℤ
minus_one = negsuc 0

unfoldable pub eq_int : ℤ → ℤ → Bool
eq_int (pos a) (pos b) = a == b
eq_int (negsuc a) (negsuc b) = a == b
eq_int _ _ = false

pub eq_int_iff : (a b : ℤ) → (eq_int a b ≡ true) ↔ (a ≡ b)
unfolding eq_int
eq_int_iff a b = ground arith

pub eq_int_refl : (a : ℤ) → eq_int a a ≡ true
eq_int_refl a = (eq_int_iff a a).1 refl

-- Conversion to `uint32_t`, modulo 2 ^ 32.
unfoldable pub to_u32 : ℤ → ℕ
to_u32 (pos n) = n % 2 ^ 32
to_u32 (negsuc n) = 2 ^ 32 - 1 - n % 2 ^ 32

-- Conversion to `int`: the number in [-2 ^ 31, 2 ^ 31) that is equal modulo 2 ^ 32.
unfoldable pub to_int : ℤ → ℤ
unfolding to_u32
to_int z = if ltb (to_u32 z) (2 ^ 31) then pos (to_u32 z) else negsuc (2 ^ 32 - 1 - to_u32 z)

pub to_u32-lt : (z : ℤ) → to_u32 z < 2 ^ 32
unfolding to_u32
to_u32-lt z = ground arith

-- A `uint32_t` survives being read as an `int` and converted back.
pub to_u32-to_int : (z : ℤ) → to_u32 (to_int z) ≡ to_u32 z
unfolding to_int
to_u32-to_int (pos n) = ground arith
to_u32-to_int (negsuc n) = ground arith

-- The values of an `int`.
abbrev pub IsInt : ℤ → Type 0
IsInt (pos n) = n < 2 ^ 31
IsInt (negsuc n) = n < 2 ^ 31

pub to_int-IsInt : (z : ℤ) → IsInt (to_int z)
unfolding to_int
to_int-IsInt z = ground arith

pub to_int-same : (z : ℤ) → IsInt z → to_int z ≡ z
unfolding to_int to_u32
to_int-same (pos n) h = ground arith
to_int-same (negsuc n) h = ground arith
