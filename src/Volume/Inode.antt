-- ===== src/Volume/Inode.antt =====
-- `Inode` of src/inode.rs: where an inode lies in the inode table, and its fields.
pub mod Scan
pub mod Find
use jfsfuse.Prelude.{
  ℕ, zero, suc, ◌+◌, ◌-◌, ◌*◌, Bool, true, false, ◌&&◌, Option, none, some, List, [], ltb, leb,
  ◌==◌, if◌then◌else◌, length, take, drop, read_u32,
}
use jfsfuse.Types.Dinode
use jfsfuse.Types.Dinode.{Dinode, parse_dinode}
use jfsfuse.Storage.Cache
use jfsfuse.Volume.{Volume, dinode_size}
use jfsfuse.Volume.Step.{Answer, VolumeError, Device, World, M, ◌>>=◌, lift}

pub record Inode : Type 0 where
  pub dinode : Dinode
  pub ino : ℕ
  pub page_block : ℕ
  pub page_offset : ℕ

-- `FILESYSTEM_I`, `ROOT_I` and `INOSPERPAGE`
abbrev pub filesystem_i : ℕ
filesystem_i = 16

abbrev pub root_i : ℕ
root_i = 2

abbrev pub inosperpage : ℕ
inosperpage = 8

-- The fileset and the number of an inode.
abbrev pub target : ℕ → ℕ × ℕ
target ino = if leb filesystem_i ino then (filesystem_i, ino - filesystem_i) else (1, ino)

-- Whether the inode at an offset of a page has a fileset and a number.
abbrev pub is_at : ℕ × ℕ → List ℕ → ℕ → Bool
is_at (fs, num) d off = (read_u32 d (off + 4) == fs) && (read_u32 d (off + 8) == num)

-- The inner loop, with `count` inodes left from `i` on: the offset of the inode, if the page has it.
-- A page that ends before makes the code panic.
unfoldable pub scan_page : ℕ → ℕ → ℕ × ℕ → List ℕ → Answer (Option ℕ)
scan_page zero i goal d = Answer.ok none
scan_page (suc count) i goal d =
    let off = i * dinode_size in
    let rest = scan_page count (i + 1) goal d in
    if ltb (length d) (off + dinode_size)
    then Answer.panicked
    else if is_at goal d off
    then Answer.ok (some off)
    else rest

module _ {S C : Type 0} (dev : Device S C) where
  -- The page of a block: any cached one, or the block of the storage.
  unfoldable pub table_page : ℕ → World S C → Answer (List ℕ)
  table_page block w = elim (Cache.peek_block dev.lru w.volume.page_cache block) [
    | some p ↦ Answer.ok p.data_
    | none ↦ elim (dev.storage.read_block w.store block) [
      | none ↦ Answer.err VolumeError.failed
      | some d ↦ Answer.ok d
    ]
  ]

  -- What the outer loop does with a page: `rest` is its next rounds.
  abbrev pub scanned : ℕ → Answer (ℕ × ℕ) → Answer (Option ℕ) → Answer (ℕ × ℕ)
  scanned block rest (Answer.err e) = Answer.err e
  scanned block rest Answer.panicked = Answer.panicked
  scanned block rest (Answer.ok (some off)) = Answer.ok (block, off)
  scanned block rest (Answer.ok none) = rest

  abbrev pub scan_block : ℕ → ℕ × ℕ → Answer (ℕ × ℕ) → Answer (List ℕ) → Answer (ℕ × ℕ)
  scan_block block goal rest (Answer.err e) = Answer.err e
  scan_block block goal rest Answer.panicked = Answer.panicked
  scan_block block goal rest (Answer.ok d) = scanned block rest (scan_page inosperpage 0 goal d)

  -- The outer loop, with `rounds` blocks left from `block` on.
  unfoldable pub scan_table : ℕ → ℕ → ℕ × ℕ → World S C → Answer (ℕ × ℕ)
  unfolding scan_page table_page
  scan_table zero block goal w = Answer.err VolumeError.inode_not_found
  scan_table (suc rounds) block goal w =
      let rest = scan_table rounds (block + 1) goal w in
      if leb dev.agg_size block then rest else scan_block block goal rest (table_page block w)

  unfoldable pub find_inode_page : ℕ → World S C → Answer (ℕ × ℕ)
  unfolding scan_table
  find_inode_page ino w = scan_table (dev.table_len + 32) dev.table_start (target ino) w

  -- The bytes of the page that `read` parses: the one that is cached under the inode itself, or the
  -- block of the storage.
  unfoldable pub inode_page : ℕ → ℕ → World S C → Answer (List ℕ)
  inode_page ino block w = elim (Cache.peek dev.lru w.volume.page_cache ino block) [
    | some p ↦ Answer.ok p.data_
    | none ↦ elim (dev.storage.read_block w.store block) [
      | none ↦ Answer.err VolumeError.failed
      | some d ↦ Answer.ok d
    ]
  ]

  abbrev pub parse_at : ℕ → ℕ → ℕ → List ℕ → Answer Inode
  parse_at ino block offset d =
      if ltb (length d) (offset + dinode_size)
      then Answer.panicked
      else elim (parse_dinode (take dinode_size (drop offset d))) [
        | none ↦ Answer.err VolumeError.other
        | some i ↦
            Answer.ok (record { dinode = i; ino = ino; page_block = block; page_offset = offset })
      ]

  unfoldable pub read : ℕ → M S C Inode
  unfolding find_inode_page inode_page
  read ino w = elim (find_inode_page ino w) [
    | Answer.err e ↦ (Answer.err e, w)
    | Answer.panicked ↦ (Answer.panicked, w)
    | Answer.ok (block, offset) ↦ elim (inode_page ino block w) [
      | Answer.err e ↦ (Answer.err e, w)
      | Answer.panicked ↦ (Answer.panicked, w)
      | Answer.ok d ↦ (parse_at ino block offset d, w)
    ]
  ]

-- `fast_symlink`: 128 bytes of the union, from its offset 192 on
unfoldable pub fast_symlink : Inode → Option (List ℕ)
fast_symlink i =
    if Dinode.is_symlink i.dinode
    then if leb 320 (length i.dinode.u) then some (take 128 (drop 192 i.dinode.u)) else none
    else none
