-- ===== src/Types/Lrd.antt =====
-- `Lrd` of src/types.rs, the descriptor of a log record: a byte-array field is held as its word.
-- With it the two conversions to bytes, `lrd_bytes` of src/journal/logmgr.rs and `parse_lrd` of
-- src/journal/recovery.rs.
pub mod Bytes
use jfsfuse.Prelude.{
  length, ℕ, ◌+◌, ◌-◌, ◌/◌, ◌%◌, ap, Bool, List, ◌++◌, map, leb, ◌==◌, if◌then◌else◌, set, byte,
  read_u16, read_u32, u16_bytes, u32_bytes,
}
use jfsfuse.Types.Pxd
use jfsfuse.Types.Pxd.{Pxd}

pub record Lrd : Type 0 where
  pub logtid : ℕ
  pub backchain : ℕ
  pub type_ : ℕ
  pub length : ℕ
  pub aggregate : ℕ
  pub redopage_fileset : ℕ
  pub redopage_inode : ℕ
  pub redopage_type : ℕ
  pub redopage_l2linesize : ℕ
  pub redopage_pxd : Pxd

-- `Lrd::default()`
abbrev pub default : Lrd
default = record {
  logtid = 0;
  backchain = 0;
  type_ = 0;
  length = 0;
  aggregate = 0;
  redopage_fileset = 0;
  redopage_inode = 0;
  redopage_type = 0;
  redopage_l2linesize = 0;
  redopage_pxd = Pxd.default;
}

-- `w & bit != 0` for a power of two
abbrev pub has_bit : ℕ → ℕ → Bool
has_bit w bit = w / bit % 2 == 1

abbrev pub log_commit : ℕ
log_commit = 32768

abbrev pub log_syncpt : ℕ
log_syncpt = 16384

abbrev pub log_mount : ℕ
log_mount = 8192

abbrev pub log_redopage : ℕ
log_redopage = 2048

abbrev pub log_noredopage : ℕ
log_noredopage = 128

abbrev pub log_noredoinoext : ℕ
log_noredoinoext = 64

abbrev pub log_updatemap : ℕ
log_updatemap = 8

-- page types of a redo record
abbrev pub log_inode : ℕ
log_inode = 1

abbrev pub log_data : ℕ
log_data = 128

abbrev pub is_commit : Lrd → Bool
is_commit r = has_bit r.type_ log_commit

abbrev pub is_syncpt : Lrd → Bool
is_syncpt r = has_bit r.type_ log_syncpt

abbrev pub is_redopage : Lrd → Bool
is_redopage r = has_bit r.type_ log_redopage

abbrev pub is_noredopage : Lrd → Bool
is_noredopage r = has_bit r.type_ log_noredopage

abbrev pub is_updatemap : Lrd → Bool
is_updatemap r = has_bit r.type_ log_updatemap

abbrev pub is_noredoinoext : Lrd → Bool
is_noredoinoext r = has_bit r.type_ log_noredoinoext

abbrev pub is_mount : Lrd → Bool
is_mount r = has_bit r.type_ log_mount

-- `LRD_SIZE`
abbrev pub lrd_size : ℕ
lrd_size = 36

unfoldable pub lrd_bytes : Lrd → List ℕ
lrd_bytes r =
    u32_bytes r.logtid
    ++ u32_bytes r.backchain
    ++ u16_bytes r.type_
    ++ u16_bytes r.length
    ++ u32_bytes r.aggregate
    ++ u32_bytes r.redopage_fileset
    ++ u32_bytes r.redopage_inode
    ++ u16_bytes r.redopage_type
    ++ u16_bytes r.redopage_l2linesize
    ++ Pxd.into_bytes r.redopage_pxd

-- Fewer than 36 bytes give the default.
unfoldable pub parse_lrd : List ℕ → Lrd
parse_lrd b =
    if leb lrd_size (length b)
    then record {
      logtid = read_u32 b 0;
      backchain = read_u32 b 4;
      type_ = read_u16 b 8;
      length = read_u16 b 10;
      aggregate = read_u32 b 12;
      redopage_fileset = read_u32 b 16;
      redopage_inode = read_u32 b 20;
      redopage_type = read_u16 b 24;
      redopage_l2linesize = read_u16 b 26;
      redopage_pxd = record { len_addr = read_u32 b 28; addr2 = read_u32 b 32 };
    }
    else default
