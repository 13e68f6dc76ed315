-- ===== src/Base/Words.antt =====
-- Casts to the fixed widths, shifts, complements and signed 16-bit numbers.
use Prim.Native.Nat.{ℕ, ◌-◌, ◌*◌, ◌/◌, ◌%◌, ◌^◌, bit_and}
use mathlib.Core.Bool.{Bool}
use melodi.Base.Logic.{◌!=◌}

abbrev pub u8 : ℕ → ℕ
u8 n = n % 2 ^ 8

abbrev pub u16 : ℕ → ℕ
u16 n = n % 2 ^ 16

abbrev pub u32 : ℕ → ℕ
u32 n = n % 2 ^ 32

abbrev pub u64 : ℕ → ℕ
u64 n = n % 2 ^ 64

abbrev pub u16_max : ℕ
u16_max = 0xffff

abbrev pub u32_max : ℕ
u32_max = 0xffff_ffff

abbrev pub u64_max : ℕ
u64_max = 0xffff_ffff_ffff_ffff

infixl 75 ◌<<<◌ ◌>>>◌
abbrev pub ◌<<<◌ : ℕ → ℕ → ℕ
x <<< k = x * 2 ^ k

abbrev pub ◌>>>◌ : ℕ → ℕ → ℕ
x >>> k = x / 2 ^ k

-- `~x` at 16 and 64 bits, for `x` in range.
abbrev pub inv16 : ℕ → ℕ
inv16 x = u16_max - x

abbrev pub inv64 : ℕ → ℕ
inv64 x = u64_max - x

-- The condition `x & mask` of an `if`.
abbrev pub has : ℕ → ℕ → Bool
has x mask = bit_and x mask != 0
