-- ===== src/Types/Lrd/Bytes.antt =====
-- The bytes of a log record's descriptor.
use jfsfuse.Prelude.{ℕ, ◌+◌, ◌*◌, ◌/◌, ◌%◌, ◌^◌, ◌<◌, ◌≡◌, refl, arith, u16_mod, u32_mod}
use jfsfuse.Types.Pxd
use jfsfuse.Types.Lrd.{Lrd, lrd_bytes, parse_lrd}

-- The fields have their widths.
pub record IsWords (r : Lrd) : Type 0 where
  pub logtid_u32 : r.logtid < u32_mod
  pub backchain_u32 : r.backchain < u32_mod
  pub type_u16 : r.type_ < u16_mod
  pub length_u16 : r.length < u16_mod
  pub aggregate_u32 : r.aggregate < u32_mod
  pub fileset_u32 : r.redopage_fileset < u32_mod
  pub inode_u32 : r.redopage_inode < u32_mod
  pub redopage_type_u16 : r.redopage_type < u16_mod
  pub l2linesize_u16 : r.redopage_l2linesize < u16_mod
  pub pxd_words : Pxd.IsWords r.redopage_pxd

pub u32_back :
    (w : ℕ)
    → w < u32_mod
    → w % 2 ^ 8
        + w / 2 ^ 8 % 2 ^ 8 * 2 ^ 8
        + w / 2 ^ 16 % 2 ^ 8 * 2 ^ 16
        + w / 2 ^ 24 % 2 ^ 8 * 2 ^ 24
      ≡ w
u32_back w h = omega arith

pub u16_back : (w : ℕ) → w < u16_mod → w % 2 ^ 8 + w / 2 ^ 8 % 2 ^ 8 * 2 ^ 8 ≡ w
u16_back w h = omega arith

pub parse_lrd-lrd_bytes : (r : Lrd) → IsWords r → parse_lrd (lrd_bytes r) ≡ r
unfolding parse_lrd lrd_bytes Pxd.into_bytes
parse_lrd-lrd_bytes r w =
    rw
      (
        u32_back r.logtid w.logtid_u32,
        u32_back r.backchain w.backchain_u32,
        u16_back r.type_ w.type_u16,
        u16_back r.length w.length_u16,
        u32_back r.aggregate w.aggregate_u32,
        u32_back r.redopage_fileset w.fileset_u32,
        u32_back r.redopage_inode w.inode_u32,
        u16_back r.redopage_type w.redopage_type_u16,
        u16_back r.redopage_l2linesize w.l2linesize_u16,
        u32_back r.redopage_pxd.len_addr w.pxd_words.len_addr_u32,
        u32_back r.redopage_pxd.addr2 w.pxd_words.addr2_u32,
      )
      refl
