-- ===== src/Base/Words.antt =====
-- Machine words: conversions to the fixed-width types of the source.
use Prim.Native.Nat.{ℕ, ◌-◌, ◌%◌, ◌^◌}
use caio.Base.Tests.{ltb, if◌then◌else◌}
use caio.Base.Int.{ℤ, pos, negsuc}

abbrev pub u8 : ℕ → ℕ
u8 n = n % 2 ^ 8

abbrev pub u16 : ℕ → ℕ
u16 n = n % 2 ^ 16

abbrev pub u32 : ℕ → ℕ
u32 n = n % 2 ^ 32

abbrev pub u64 : ℕ → ℕ
u64 n = n % 2 ^ 64

-- The value of a 32-bit or 64-bit pattern read as a signed number.
abbrev pub signed32 : ℕ → ℤ
signed32 n = if ltb n (2 ^ 31) then pos n else negsuc (2 ^ 32 - n - 1)

abbrev pub signed64 : ℕ → ℤ
signed64 n = if ltb n (2 ^ 63) then pos n else negsuc (2 ^ 64 - n - 1)

-- The two's complement pattern of a number in 64 bits.
abbrev pub bits64 : ℤ → ℕ
bits64 (pos n) = n % 2 ^ 64
bits64 (negsuc n) = 2 ^ 64 - 1 - n % 2 ^ 64

-- The conversion of a 64-bit number to `int`.
abbrev pub int32 : ℤ → ℤ
int32 n = signed32 (u32 (bits64 n))
