-- ===== src/Types/Dinode.antt =====
-- `Dxd`, `Timestruc` and `Dinode` of src/types.rs, and `parse_dinode` of src/inode.rs. A field that
-- the code only reads and writes as a little-endian word is held as that word.
pub mod Writes
use jfsfuse.Prelude.{
  ℕ, ◌+◌, ◌*◌, ◌/◌, ◌%◌, ◌^◌, Bool, Option, none, some, List, [], ◌∷◌, ltb, ◌==◌, if◌then◌else◌,
  length, take, drop, replicate, byte, read_u32, read_u64,
}
use jfsfuse.Types.Pxd
use jfsfuse.Types.Pxd.{Pxd}

-- The three reserved bytes are one number.
pub record Dxd : Type 0 where
  pub flag : ℕ
  pub rsrvd : ℕ
  pub size : ℕ
  pub loc : Pxd

pub record Timestruc : Type 0 where
  pub tv_sec : ℕ
  pub tv_nsec : ℕ

pub record Dinode : Type 0 where
  pub inostamp : ℕ
  pub fileset : ℕ
  pub number : ℕ
  pub generation : ℕ
  pub ixpxd : Pxd
  pub size : ℕ
  pub nblocks : ℕ
  pub nlink : ℕ
  pub uid : ℕ
  pub gid : ℕ
  pub mode : ℕ
  pub atime : Timestruc
  pub ctime : Timestruc
  pub mtime : Timestruc
  pub otime : Timestruc
  pub acl : Dxd
  pub ea : Dxd
  pub next_index : ℕ
  pub acltype : ℕ
  pub u : List ℕ

-- `mode & 0xf000`, and the three tests of it
abbrev pub file_type : ℕ → ℕ
file_type mode = mode / 2 ^ 12 % 2 ^ 4 * 2 ^ 12

abbrev pub is_dir : Dinode → Bool
is_dir i = file_type i.mode == 16384

abbrev pub is_regular : Dinode → Bool
is_regular i = file_type i.mode == 32768

abbrev pub is_symlink : Dinode → Bool
is_symlink i = file_type i.mode == 40960

-- `xtroot_bytes` and `dtroot_bytes`, which are the same bytes
abbrev pub root_bytes : Dinode → List ℕ
root_bytes i = drop 96 i.u

abbrev pub parse_pxd : List ℕ → ℕ → Pxd
parse_pxd d i = record { len_addr = read_u32 d i; addr2 = read_u32 d (i + 4) }

abbrev pub parse_time : List ℕ → ℕ → Timestruc
parse_time d i = record { tv_sec = read_u32 d i; tv_nsec = read_u32 d (i + 4) }

abbrev pub parse_dxd : List ℕ → ℕ → Dxd
parse_dxd d i = record {
  flag = byte d i;
  rsrvd = byte d (i + 1) + byte d (i + 2) * 2 ^ 8 + byte d (i + 3) * 2 ^ 16;
  size = read_u32 d (i + 4);
  loc = parse_pxd d (i + 8);
}

-- The fields of at least 512 bytes.
abbrev pub fields : List ℕ → Dinode
fields d = record {
  inostamp = read_u32 d 0;
  fileset = read_u32 d 4;
  number = read_u32 d 8;
  generation = read_u32 d 12;
  ixpxd = parse_pxd d 16;
  size = read_u64 d 24;
  nblocks = read_u64 d 32;
  nlink = read_u32 d 40;
  uid = read_u32 d 44;
  gid = read_u32 d 48;
  mode = read_u32 d 52;
  atime = parse_time d 56;
  ctime = parse_time d 64;
  mtime = parse_time d 72;
  otime = parse_time d 80;
  acl = parse_dxd d 88;
  ea = parse_dxd d 104;
  next_index = read_u32 d 120;
  acltype = read_u32 d 124;
  u = take 384 (drop 128 d);
}

-- `none` is the error of too few bytes.
unfoldable pub parse_dinode : List ℕ → Option Dinode
parse_dinode d = if ltb (length d) 512 then none else some (fields d)
