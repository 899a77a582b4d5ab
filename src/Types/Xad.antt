-- ===== src/Types/Xad.antt =====
-- `Xad` of src/types.rs: an extent entry, a 40-bit logical offset split over `off1` and `off2`
-- beside the physical extent.
pub mod Fields
use jfsfuse.Prelude.{ℕ, ◌+◌, ◌*◌, ◌/◌, ◌%◌, ◌^◌, ◌<◌, u8_mod, u32_mod, u16_mod}
use jfsfuse.Types.Pxd
use jfsfuse.Types.Pxd.{Pxd}

-- `rsvrd` is two bytes that are only copied: one 16-bit value.
pub record Xad : Type 0 where
  pub flag : ℕ
  pub rsvrd : ℕ
  pub off1 : ℕ
  pub off2 : ℕ
  pub loc : Pxd

pub record IsWords (x : Xad) : Type 0 where
  pub flag_u8 : x.flag < u8_mod
  pub rsvrd_u16 : x.rsvrd < u16_mod
  pub off1_u8 : x.off1 < u8_mod
  pub off2_u32 : x.off2 < u32_mod
  pub loc_words : Pxd.IsWords x.loc

-- `Xad::default()`
abbrev pub default : Xad
default = record { flag = 0; rsvrd = 0; off1 = 0; off2 = 0; loc = Pxd.default }

-- `XadFlag::XAD_NEW`
abbrev pub xad_new : ℕ
xad_new = 1

-- The offset is below 2^40, so that `as i64` keeps its value.
unfoldable pub offset : Xad → ℕ
offset x = x.off1 * 2 ^ 32 + x.off2

unfoldable pub set_offset : ℕ → Xad → Xad
set_offset val x = record x { off1 = val / 2 ^ 32 % 2 ^ 8; off2 = val % 2 ^ 32 }

unfoldable pub length_of : Xad → ℕ
length_of x = Pxd.length_of x.loc

unfoldable pub set_length : ℕ → Xad → Xad
set_length len x = record x { loc = Pxd.set_length len x.loc }

unfoldable pub address : Xad → ℕ
address x = Pxd.address x.loc

unfoldable pub set_address : ℕ → Xad → Xad
set_address addr x = record x { loc = Pxd.set_address addr x.loc }

unfoldable pub set_flag : ℕ → Xad → Xad
set_flag f x = record x { flag = f }
