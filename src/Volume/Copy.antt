-- ===== src/Volume/Copy.antt =====
-- `copy_file_range_extent` of src/volume.rs, which moves extents from one file to another.
use jfsfuse.Prelude.{
  ℕ, Bool, not, ◌||◌, ◌==◌, if◌then◌else◌, ◌+◌, ◌-◌, ◌/◌, ◌%◌, max, Option, none, some, List, [],
  ◌∷◌, as_u64,
}
use jfsfuse.Types.XtRoot.{XtRoot}
use jfsfuse.Btree.Xtree
use jfsfuse.Btree.Xtree.Range
use jfsfuse.Volume.Step
use jfsfuse.Volume.Step.{Answer, VolumeError, World, Device, M, pure, lift, continue, ◌>>=◌, ◌>>◌}
use jfsfuse.Volume.Inode
use jfsfuse.Volume.Inode.{Inode}
use jfsfuse.Volume.Files.{block_size, extent_root, compute_nblocks, put_root, put_truncated}
use jfsfuse.Prelude.{put_u64}

-- The extents that were taken, put at their places in the other file; `none` if its root is full.
unfoldable pub insert_all : ℕ → ℕ → List (ℕ × ℕ × ℕ) → XtRoot → Option XtRoot
insert_all src_start dst_start [] r = some r
insert_all src_start dst_start ((logical, n, addr) ∷ es) r =
    let (done, longer) = Xtree.insert_taken_extent r (dst_start + (logical - src_start)) n addr in
    let rest = insert_all src_start dst_start es longer in if done then rest else none

-- the requests that are left to the caller
abbrev pub is_unaligned : ℕ → ℕ → ℕ → Bool
is_unaligned src_offset dst_offset len =
    not (src_offset % block_size == 0)
    || not (dst_offset % block_size == 0)
    || not (len % block_size == 0)
    || (len == 0)

-- The change of the source's inode.
abbrev pub put_taken : XtRoot → ℕ → List ℕ → List ℕ
put_taken r nblocks d = put_u64 (put_root r d) 32 nblocks

module _ {S C : Type 0} (dev : Device S C) where
  -- The second half, for the destination; `none` is answered where the extents do not fit.
  unfoldable pub receive : ℕ → ℕ → ℕ → ℕ → List (ℕ × ℕ × ℕ) → M S C (Option ℕ)
  unfolding insert_all
  receive ino src_start dst_offset len taken =
      let start = dst_offset / block_size in
      let end_ = start + len / block_size in
      let stored : Inode → XtRoot → M S C (Option ℕ) = λ inode r. do
        Step.update_inode_page dev ino inode.page_block inode.page_offset (
            put_truncated r (max inode.dinode.size (as_u64 (dst_offset + len)))
              (compute_nblocks r inode.dinode.nblocks))
        Step.mark_page_dirty dev ino inode.page_block
        Step.commit_transaction dev
        pure (some len)
      in do
        inode ← Inode.read dev ino
        xtree ← lift (extent_root inode)
        let cut = Range.punch_extents xtree start end_
        Step.free_blocks cut.1
        elim (insert_all src_start start taken cut.0) [
          | none ↦ Step.abort_with dev (Answer.ok none)
          | some r ↦ stored inode r
        ]

  -- What is done for an aligned request.
  unfoldable pub transfer : ℕ → ℕ → ℕ → ℕ → ℕ → M S C (Option ℕ)
  unfolding receive
  transfer src_ino src_offset dst_ino dst_offset len =
      let start = src_offset / block_size in
      let sent : Inode → XtRoot → List (ℕ × ℕ × ℕ) → M S C (Option ℕ) = λ inode r taken. do
        Step.update_inode_page dev src_ino inode.page_block inode.page_offset
            (put_taken r (compute_nblocks r inode.dinode.nblocks))
        Step.mark_page_dirty dev src_ino inode.page_block
        receive dst_ino start dst_offset len taken
      in do
        txid ← Step.begin_transaction dev
        inode ← Inode.read dev src_ino
        xtree ← lift (extent_root inode)
        let left = Range.take_extents xtree start (start + len / block_size)
        elim left.1 [
          | [] ↦ Step.abort_with dev (Answer.ok none)
          | t ∷ ts ↦ sent inode left.0 (t ∷ ts)
        ]

  unfoldable pub copy_file_range_extent : ℕ → ℕ → ℕ → ℕ → ℕ → M S C (Option ℕ)
  unfolding transfer
  copy_file_range_extent src_ino src_offset dst_ino dst_offset len =
      if is_unaligned src_offset dst_offset len
      then pure none
      else transfer src_ino src_offset dst_ino dst_offset len
