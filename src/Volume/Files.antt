-- ===== src/Volume/Files.antt =====
-- The operations of `Volume` in src/volume.rs on a file that exists: truncate, fallocate, setattr
-- and fsync, with `compute_nblocks`. The extent root is written over the last 288 bytes of the inode.
pub mod Attributes
pub mod Truncated
use jfsfuse.Prelude.{
  ℕ, zero, suc, ◌+◌, ◌-◌, ◌/◌, ◌%◌, ◌^◌, Bool, true, false, not, ◌&&◌, Option, none, some, List, [],
  ◌∷◌, ltb, ◌==◌, if◌then◌else◌, length, replicate, as_u32, as_u64, read_u32, put_bytes, put_u32,
  put_u64,
}
use jfsfuse.Types.Lrd.{has_bit}
use jfsfuse.Types.Pxd
use jfsfuse.Types.XtRoot.{XtRoot}
use jfsfuse.Types.Dinode
use jfsfuse.Btree.Xtree
use jfsfuse.Btree.Xtree.{Extent}
use jfsfuse.Btree.Xtree.Bytes
use jfsfuse.Btree.Xtree.Range
use jfsfuse.Alloc.Dmap
use jfsfuse.Volume.{dinode_size}
use jfsfuse.Volume.Step
use jfsfuse.Volume.Step.{Answer, VolumeError, World, Device, M, pure, lift, continue, ◌>>=◌, ◌>>◌}
use jfsfuse.Volume.Inode
use jfsfuse.Volume.Inode.{Inode}

-- `BLOCK_SIZE`
abbrev pub block_size : ℕ
block_size = 4096

-- `(n + BLOCK_SIZE - 1) / BLOCK_SIZE`
abbrev pub blocks_of : ℕ → ℕ
blocks_of n = as_u64 (n + block_size - 1) / block_size

-- `Xtree::from_inode_data(inode.xtroot_bytes())`
abbrev pub extent_root : Inode → Answer XtRoot
extent_root inode = elim (Bytes.from_inode_data (Dinode.root_bytes inode.dinode)) [
  | none ↦ Answer.err VolumeError.other
  | some r ↦ Answer.ok r
]

abbrev pub total_blocks : List Extent → ℕ
total_blocks [] = 0
total_blocks (e ∷ es) = e.length + total_blocks es

unfoldable pub compute_nblocks : XtRoot → ℕ → ℕ
compute_nblocks r fallback =
    let total = total_blocks (Xtree.iter_extents r) in if ltb 0 total then total else fallback

-- The root over the last bytes of the inode.
abbrev pub put_root : XtRoot → List ℕ → List ℕ
put_root r d = put_bytes d (dinode_size - length (Bytes.to_bytes r)) (Bytes.to_bytes r)

-- The change of the inode when extents were cut off, and when they were added.
unfoldable pub put_truncated : XtRoot → ℕ → ℕ → List ℕ → List ℕ
put_truncated r size nblocks d = put_u64 (put_u64 (put_root r d) 24 size) 32 nblocks

unfoldable pub put_extents : XtRoot → List ℕ → List ℕ
put_extents r d = put_u64 (put_root r d) 32 (total_blocks (Xtree.iter_extents r))

abbrev pub put_size : ℕ → List ℕ → List ℕ
put_size size d = put_u64 d 24 size

-- `FALLOC_FL_…`
abbrev pub fl_keep_size : ℕ
fl_keep_size = 1

abbrev pub fl_punch_hole : ℕ
fl_punch_hole = 2

-- One of `COLLAPSE_RANGE`, `ZERO_RANGE`, `INSERT_RANGE` and `NOCACHE` is set.
abbrev pub is_unsupported : ℕ → Bool
is_unsupported mode = not (
    not (has_bit mode 8) && not (has_bit mode 16) && not (has_bit mode 32) && not (has_bit mode 64))

-- an optional change
abbrev pub put_some : Option ℕ → (ℕ → List ℕ → List ℕ) → List ℕ → List ℕ
put_some none put d = d
put_some (some x) put d = put x d

-- `(m & 0x0fff) | (old_mode & 0xf000)`
abbrev pub new_mode : ℕ → ℕ → ℕ
new_mode m old = m % 2 ^ 12 + Dinode.file_type old

-- The closure of `setattr`.
unfoldable pub put_attributes :
    Option ℕ → Option ℕ → Option ℕ → Option ℕ → Option ℕ → List ℕ → List ℕ
put_attributes mode uid gid atime mtime d =
    let d1 = put_some mode (λ m e. put_u32 e 52 (new_mode m (read_u32 e 52))) d in
    let d2 = put_some uid (λ u e. put_u32 e 44 u) d1 in
    let d3 = put_some gid (λ g e. put_u32 e 48 g) d2 in
    let d4 = put_some atime (λ t e. put_u32 (put_u32 e 56 (as_u32 t)) 60 0) d3 in
    put_some mtime (λ t e. put_u32 (put_u32 e 72 (as_u32 t)) 76 0) d4

module _ {S C : Type 0} (dev : Device S C) where
  -- The bytes of a block from an offset on become 0, in each extent that is not a hole. A block of
  -- fewer than 4096 bytes makes the code panic.
  unfoldable pub zero_tail : ℕ → List (ℕ × ℕ) → M S C (Unit {0})
  zero_tail off [] w = pure tt w
  zero_tail off ((addr, count) ∷ es) w =
      let rest = zero_tail off es in
      let zeroed : List ℕ → M S C (Unit {0}) = λ d.
        if ltb (length d) block_size
        then lift Answer.panicked
        else Step.write_block dev addr (put_bytes d off (replicate (block_size - off) 0)) in
      (if not (addr == 0) && ltb 0 count
          then (Step.read_block dev addr >>= zeroed) >> rest
          else rest)
        w

  -- The three cases of `truncate`.
  unfoldable pub resize : ℕ → Inode → XtRoot → ℕ → M S C (Unit {0})
  unfolding zero_tail
  resize ino inode xtree new_size =
      let size = inode.dinode.size in
      let new_eof = blocks_of new_size in
      let current_eof = blocks_of size in
      let (cut, freed) = Range.truncate_extents xtree new_eof in
      let update : (List ℕ → List ℕ) → M S C (Unit {0}) =
        λ f. Step.update_inode_page dev ino inode.page_block inode.page_offset f in
      if ltb new_eof current_eof
      then Step.free_blocks freed
        >> update (put_truncated cut new_size (compute_nblocks cut inode.dinode.nblocks))
      else if ltb current_eof new_eof
      then (if ltb 0 (size % block_size)
          then zero_tail (size % block_size) (Xtree.map_blocks xtree (size / block_size) 1)
          else pure tt)
        >> update (put_size new_size)
      else update (put_size new_size)

  unfoldable pub truncate : ℕ → ℕ → M S C (Unit {0})
  unfolding resize
  truncate ino new_size = do
    txid ← Step.begin_transaction dev
    inode ← Inode.read dev ino
    xtree ← lift (extent_root inode)
    resize ino inode xtree new_size
    Step.mark_page_dirty dev ino inode.page_block
    Step.commit_transaction dev

  -- `bmap.alloc_extent(n, hint)?` where there is a map: the address and the length of the extent.
  unfoldable pub alloc_extent : ℕ → ℕ → M S C (Option (ℕ × ℕ))
  alloc_extent n hint w = elim w.volume.bmap [
    | none ↦ (Answer.ok none, w)
    | some a ↦
        let (r, b) = Dmap.alloc_extent a n hint in
        let after = record w { volume = record (w.volume) { bmap = some b } } in
        elim r [
          | Dmap.Result.ok pxd ↦ (Answer.ok (some (Pxd.address pxd, Pxd.length_of pxd)), after)
          | Dmap.Result.err e ↦ (Answer.err VolumeError.failed, after)
        ]
  ]

  -- The loop of `fallocate`, with `count` blocks left from `fsb` on: each block that is not mapped
  -- gets a zeroed one.
  unfoldable pub fill_blocks : ℕ → ℕ → Bool × XtRoot → M S C (Bool × XtRoot)
  unfolding alloc_extent
  fill_blocks zero fsb (modified, xtree) w = pure (modified, xtree) w
  fill_blocks (suc count) fsb (modified, xtree) w =
      let skip = fill_blocks count (fsb + 1) (modified, xtree) in
      let inserted : Option (ℕ × ℕ) → M S C (Bool × XtRoot) = λ found. elim found [
        | none ↦ skip
        | some (addr, n) ↦
            let (grown, longer) = Xtree.insert_extent xtree fsb 1 addr in
            Step.write_block dev addr (replicate block_size 0)
            >> fill_blocks count (fsb + 1) (if grown then true else modified, longer)
      ] in
      elim (Xtree.lookup xtree fsb) [ some e ↦ skip w | none ↦ (alloc_extent 1 fsb >>= inserted) w ]

  -- The blocks of the range are given back, or allocated: whether the root has changed, and the root.
  unfoldable pub reserve : Bool → ℕ → ℕ → XtRoot → M S C (Bool × XtRoot)
  unfolding fill_blocks
  reserve is_punch start end xtree w =
      let (punched, freed) = Range.punch_extents xtree start end in
      let nonempty = not (start == end) in
      (if is_punch && nonempty
          then Step.free_blocks freed >> pure (true, punched)
          else if nonempty
          then elim w.volume.bmap [
            | none ↦ pure (false, xtree)
            | some a ↦ fill_blocks (end - start) start (false, xtree)
          ]
          else pure (false, xtree))
        w

  unfoldable pub fallocate : ℕ → ℕ → ℕ → ℕ → M S C (Unit {0})
  unfolding reserve
  fallocate ino offset len mode =
      let is_punch = has_bit mode fl_keep_size && has_bit mode fl_punch_hole in
      let end_ = as_u64 (offset + len) in
      let run : M S C (Unit {0}) = do
        txid ← Step.begin_transaction dev
        inode ← Inode.read dev ino
        xtree ← lift (extent_root inode)
        reserved ← reserve is_punch (offset / block_size) (blocks_of (offset + len)) xtree
        let update : (List ℕ → List ℕ) → M S C (Unit {0}) =
            λ f. Step.update_inode_page dev ino inode.page_block inode.page_offset f
        if not is_punch && not (has_bit mode fl_keep_size) && ltb inode.dinode.size end_
            then update (put_size end_)
            else pure tt
        if reserved.0 then update (put_extents reserved.1) else pure tt
        Step.mark_page_dirty dev ino inode.page_block
        Step.flush_data dev
        Step.commit_transaction dev
      in if is_unsupported mode then lift (Answer.err VolumeError.other) else run

  unfoldable pub setattr :
      ℕ → Option ℕ → Option ℕ → Option ℕ → Option ℕ → Option ℕ → M S C (Unit {0})
  unfolding put_attributes
  setattr ino mode uid gid atime mtime = do
    txid ← Step.begin_transaction dev
    inode ← Inode.read dev ino
    Step.update_inode_page dev ino inode.page_block inode.page_offset
        (put_attributes mode uid gid atime mtime)
    Step.mark_page_dirty dev ino inode.page_block
    Step.commit_transaction dev

  unfoldable pub fsync : ℕ → M S C (Unit {0})
  fsync ino = do
    txid ← Step.begin_transaction dev
    inode ← Inode.read dev ino
    Step.flush_metadata dev
    Step.mark_page_dirty dev ino inode.page_block
    Step.commit_transaction dev
