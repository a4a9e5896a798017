-- ===== src/Prelude/Int.antt =====
-- C's `int`, as an integer over the native numbers, and the narrowing casts of the binding.
use Prim.Native.Nat.{ℕ, suc, ◌+◌, ◌-◌, ◌%◌, ◌≤◌, ◌<◌}
use mathlib.Core.Path.{◌≡◌}
use mathlib.Core.Bool.{Bool}
use native.Mathlib.Omega.{arith}
use raknet_python.Prelude.Tests.{ltb, if◌then◌else◌}

-- `negsuc n` is -(n + 1).
pub data ℤ : Type 0 where
  pos : ℕ → ℤ
  negsuc : ℕ → ℤ

abbrev pub pos_part : ℤ → ℕ
pos_part (pos n) = n
pos_part (negsuc n) = 0

abbrev pub neg_part : ℤ → ℕ
neg_part (pos n) = 0
neg_part (negsuc n) = suc n

infix 50 ◌≤ℤ◌
abbrev pub ◌≤ℤ◌ : ℤ → ℤ → Type 0
a ≤ℤ b = pos_part a + neg_part b ≤ pos_part b + neg_part a

abbrev pub ltb_ℤ : ℤ → ℤ → Bool
ltb_ℤ a b = ltb (pos_part a + neg_part b) (pos_part b + neg_part a)

-- The value of an integer modulo 256.
unfoldable pub mod_256 : ℤ → ℕ
mod_256 (pos n) = n % 256
mod_256 (negsuc n) = 255 - n % 256

-- `static_cast<unsigned char>(z)` of an `int`.
abbrev pub to_uchar : ℤ → ℕ
to_uchar = mod_256

-- `static_cast<char>(z)` of an `int`, where `char` is signed.
unfoldable pub to_char : ℤ → ℤ
unfolding mod_256
to_char z = let u = mod_256 z in if ltb u 128 then pos u else negsuc (255 - u)

-- `static_cast<int>(n)` of a `size_t`.
unfoldable pub to_int : ℕ → ℤ
to_int n = let u = n % 4294967296 in if ltb u 2147483648 then pos u else negsuc (4294967295 - u)

-- `static_cast<unsigned>(n)` of a `size_t`.
unfoldable pub to_unsigned : ℕ → ℕ
to_unsigned n = n % 4294967296

-- `static_cast<unsigned short>(n)` of an `unsigned`.
unfoldable pub to_ushort : ℕ → ℕ
to_ushort n = n % 65536

-- `std::clamp(z, 0, 2)`.
unfoldable pub clamp_0_2 : ℤ → ℤ
clamp_0_2 z = if ltb_ℤ z (pos 0) then pos 0 else if ltb_ℤ (pos 2) z then pos 2 else z

pub to_int-pos : (n : ℕ) → n < 2147483648 → to_int n ≡ pos n
unfolding to_int
to_int-pos n h = ground arith

pub clamp_0_2_bounds : (z : ℤ) → (pos 0 ≤ℤ clamp_0_2 z) × (clamp_0_2 z ≤ℤ pos 2)
unfolding clamp_0_2
clamp_0_2_bounds z = ground arith

-- A channel that is a byte survives the narrowing; `to_char` reads the upper half as negative.
pub mod_256-to_char : (z : ℤ) → mod_256 (to_char z) ≡ mod_256 z
unfolding mod_256 to_char
mod_256-to_char (pos n) = ground arith
mod_256-to_char (negsuc n) = ground arith
