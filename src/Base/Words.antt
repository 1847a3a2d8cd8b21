-- ===== src/Base/Words.antt =====
-- BYTE, WORD and DWORD arithmetic (types.h): a value is a number, and its wrap-around is written
-- out.
use Prim.Native.Nat.{ℕ, ◌+◌, ◌-◌, ◌%◌, ◌^◌}

abbrev pub u8 : ℕ → ℕ
u8 n = n % 2 ^ 8

abbrev pub u16 : ℕ → ℕ
u16 n = n % 2 ^ 16

abbrev pub u32 : ℕ → ℕ
u32 n = n % 2 ^ 32

-- Subtraction on ℕ stops at 0, so the modulus is added first.
abbrev pub sub8 : ℕ → ℕ → ℕ
sub8 a b = u8 (a + 2 ^ 8 - b)

abbrev pub sub32 : ℕ → ℕ → ℕ
sub32 a b = u32 (a + 2 ^ 32 - b)
