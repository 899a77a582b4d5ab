-- ===== src/Types/Pxd.antt =====
-- `Pxd` of src/types.rs: a 24-bit length and a 40-bit block address packed into two
-- little-endian words. A `[u8; 4]` field that the code only touches by `LittleEndian` is held as
-- its word; `into_bytes` and `from_bytes` give the byte order.
pub mod Fields
use jfsfuse.Prelude.{
  ℕ, ◌+◌, ◌*◌, ◌/◌, ◌%◌, ◌^◌, ◌<◌, List, ◌++◌, as_u32, u32_mod, leb, if◌then◌else◌, length,
  read_u32, u32_bytes,
}

pub record Pxd : Type 0 where
  pub len_addr : ℕ
  pub addr2 : ℕ

-- The two fields are 32-bit words.
pub record IsWords (p : Pxd) : Type 0 where
  pub len_addr_u32 : p.len_addr < u32_mod
  pub addr2_u32 : p.addr2 < u32_mod

-- `Pxd::default()`
abbrev pub default : Pxd
default = record { len_addr = 0; addr2 = 0 }

unfoldable pub length_of : Pxd → ℕ
length_of p = p.len_addr % 2 ^ 24

unfoldable pub set_length : ℕ → Pxd → Pxd
set_length len p = record p { len_addr = p.len_addr / 2 ^ 24 * 2 ^ 24 + len % 2 ^ 24 }

-- `(l & !0xffffff) << 8` and the low word
unfoldable pub address : Pxd → ℕ
address p = p.len_addr / 2 ^ 24 * 2 ^ 24 * 2 ^ 8 + p.addr2

unfoldable pub set_address : ℕ → Pxd → Pxd
set_address addr p =
    let high_addr = as_u32 (addr / 2 ^ 32) in
    let shifted = high_addr * 2 ^ 24 % u32_mod in
    record { len_addr = p.len_addr % 2 ^ 24 + shifted / 2 ^ 24 * 2 ^ 24; addr2 = as_u32 addr }

unfoldable pub into_bytes : Pxd → List ℕ
into_bytes p = u32_bytes p.len_addr ++ u32_bytes p.addr2

-- Fewer than eight bytes give the default.
unfoldable pub from_bytes : List ℕ → Pxd
from_bytes bytes =
    if leb 8 (length bytes)
    then record { len_addr = read_u32 bytes 0; addr2 = read_u32 bytes 4 }
    else default
