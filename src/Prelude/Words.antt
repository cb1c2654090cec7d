-- ===== src/Prelude/Words.antt =====
-- Machine integers. A word is a native number below its modulus, and each operation that the
-- source does at a width writes the wrap-around out; a signed value is an integer.
use Prim.Native.Nat.{ℕ, ◌-◌, ◌%◌, ◌^◌, ◌<◌}
use mathlib.Core.Path.{◌≡◌, refl}
use native.Mathlib.Omega.{arith}
use remote_dict.Prelude.Tests.{ltb, if◌then◌else◌}

abbrev pub u16_mod : ℕ
u16_mod = 2 ^ 16

abbrev pub u32_mod : ℕ
u32_mod = 2 ^ 32

abbrev pub u64_mod : ℕ
u64_mod = 2 ^ 64

-- INT_MAX, which is also the largest 32-bit `int`.
abbrev pub int_max : ℕ
int_max = 2 ^ 31 - 1

-- `negsuc n` is -(n + 1).
pub data ℤ : Type 0 where
  pos : ℕ → ℤ
  negsuc : ℕ → ℤ

-- The conversion of an unsigned value to `int32_t`.
unfoldable pub int32_of : ℕ → ℤ
int32_of n = let r = n % u32_mod in if ltb r (2 ^ 31) then pos r else negsuc (u32_mod - r - 1)

pub int32_of_small : (n : ℕ) → n < 2 ^ 31 → int32_of n ≡ pos n
unfolding int32_of
int32_of_small n h = ground arith

-- A count of 64 bits is converted as the count itself.
pub int32_of-mod : (n : ℕ) → int32_of (n % u64_mod) ≡ int32_of n
unfolding int32_of
int32_of-mod n = let e : n % u64_mod % u32_mod ≡ n % u32_mod = omega arith in rw (e, int32_of) refl
