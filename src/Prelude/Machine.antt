-- ===== src/Prelude/Machine.antt =====
-- Machine integers are numbers below a power of two; wrap-around is written out where it happens.
-- `x & (2^k - 1)` is `x % 2^k`, `x & !(2^k - 1)` is `x / 2^k * 2^k`, and `a | b` is `a + b` where
-- the set bits of `a` and `b` are disjoint.
use Prim.Native.Nat.{ℕ, ◌+◌, ◌*◌, ◌/◌, ◌%◌, ◌^◌}
use mathlib.Core.List.{List, [], ◌∷◌}
use jfsfuse.Prelude.Lists.{get_or}

abbrev pub u8_mod : ℕ
u8_mod = 2 ^ 8

abbrev pub u16_mod : ℕ
u16_mod = 2 ^ 16

abbrev pub u32_mod : ℕ
u32_mod = 2 ^ 32

abbrev pub u64_mod : ℕ
u64_mod = 2 ^ 64

-- `x as u32`, and so on
abbrev pub as_u8 : ℕ → ℕ
as_u8 x = x % u8_mod

abbrev pub as_u16 : ℕ → ℕ
as_u16 x = x % u16_mod

abbrev pub as_u32 : ℕ → ℕ
as_u32 x = x % u32_mod

abbrev pub as_u64 : ℕ → ℕ
as_u64 x = x % u64_mod

-- The byte at an index inside the slice (0 outside, where the code does not read).
abbrev pub byte : List ℕ → ℕ → ℕ
byte b i = get_or b i 0

-- `LittleEndian::read_u16(&b[i..i + 2])`
abbrev pub read_u16 : List ℕ → ℕ → ℕ
read_u16 b i = byte b i + byte b (i + 1) * 2 ^ 8

-- `LittleEndian::read_u32(&b[i..i + 4])`
abbrev pub read_u32 : List ℕ → ℕ → ℕ
read_u32 b i = byte b i + byte b (i + 1) * 2 ^ 8 + byte b (i + 2) * 2 ^ 16 + byte b (i + 3) * 2 ^ 24

-- the bytes of a 16-bit and of a 32-bit little-endian field
abbrev pub u16_bytes : ℕ → List ℕ
u16_bytes w = w % 2 ^ 8 ∷ w / 2 ^ 8 % 2 ^ 8 ∷ []

abbrev pub u32_bytes : ℕ → List ℕ
u32_bytes w = w % 2 ^ 8 ∷ w / 2 ^ 8 % 2 ^ 8 ∷ w / 2 ^ 16 % 2 ^ 8 ∷ w / 2 ^ 24 % 2 ^ 8 ∷ []
