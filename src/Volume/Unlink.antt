-- ===== src/Volume/Unlink.antt =====
-- The removal of names and of inodes in src/volume.rs: rmdir, unlink_file, and the handles that keep
-- an unlinked inode, open_file and release_file.
use jfsfuse.Prelude.{
  ℕ, ◌+◌, ◌-◌, Bool, true, false, not, ◌&&◌, Option, none, some, List, [], ltb, ◌==◌, if◌then◌else◌,
  as_u32, u32_mod, read_u32, put_u32, put_u64,
}
use jfsfuse.Types.Dinode
use jfsfuse.Types.Dinode.{Dinode}
use jfsfuse.Btree.Dtree
use jfsfuse.Btree.Xtree.Bytes
use jfsfuse.Btree.Xtree.Range
use jfsfuse.Volume.Step
use jfsfuse.Volume.Step.{Answer, VolumeError, World, Device, M, pure, lift, continue, ◌>>=◌, ◌>>◌}
use jfsfuse.Volume.Inode
use jfsfuse.Volume.Inode.{Inode}
use jfsfuse.Volume.Dirs.{dir_root, put_nlink, remove_dir_entry, mark_inode}

-- `open_handles.get(&page_block).copied().unwrap_or(0)`
abbrev pub handles : (ℕ → Option ℕ) → ℕ → ℕ
handles h block = elim (h block) [ none ↦ 0 | some n ↦ n ]

abbrev pub has_open_handles : {S C : Type 0} → World S C → ℕ → Bool
has_open_handles w block = ltb 0 (handles w.open_handles block)

abbrev pub set_handles : (ℕ → Option ℕ) → ℕ → ℕ → ℕ → Option ℕ
set_handles h block n b = if b == block then some n else h b

-- An inode that is free again: no mode, no size, no links.
unfoldable pub put_free : List ℕ → List ℕ
put_free d = put_u32 (put_u64 (put_u32 d 52 0) 24 0) 40 0

-- The blocks of a regular file: `truncate_extents(0)` of its root, if that parses.
unfoldable pub file_blocks : Dinode → List (ℕ × ℕ)
file_blocks i =
    if Dinode.is_regular i
    then elim (Bytes.from_inode_data (Dinode.root_bytes i)) [
      | none ↦ []
      | some r ↦ (Range.truncate_extents r 0).1
    ]
    else []

module _ {S C : Type 0} (dev : Device S C) where
  unfoldable pub open_file : ℕ → M S C (Unit {0})
  open_file ino w =
      (Inode.read dev ino >>= λ inode x. (
        Answer.ok tt,
        record x {
          open_handles =
              set_handles x.open_handles inode.page_block
                (as_u32 (handles x.open_handles inode.page_block + 1));
        },
      ))
        w

  -- The count goes down where there is one, and stops at 0.
  unfoldable pub drop_handle : ℕ → M S C (Unit {0})
  drop_handle block w = elim (w.open_handles block) [
    | none ↦ (Answer.ok tt, w)
    | some n ↦ (Answer.ok tt, record w { open_handles = set_handles w.open_handles block (n - 1) })
  ]

  -- The parent's link count goes down: below 0 the code panics where overflows are checked, and
  -- wraps otherwise.
  unfoldable pub drop_link : ℕ → M S C (Unit {0})
  drop_link parent = do
    inode ← Inode.read dev parent
    Step.update_inode_page dev parent inode.page_block inode.page_offset
        (λ d. put_nlink (as_u32 (read_u32 d 40 + u32_mod - 1)) d)
    Step.mark_page_dirty dev parent inode.page_block

  -- `rmdir` from the child's number on.
  unfoldable pub remove_directory : ℕ → ℕ → M S C Bool
  unfolding drop_link
  remove_directory parent child =
      let emptied : Inode → M S C Bool = λ inode. do
        Step.update_inode_page dev child inode.page_block inode.page_offset put_free
        Step.mark_page_dirty dev child inode.page_block
        drop_link parent
        Step.commit_transaction dev
        pure true
      in let listed : Inode → M S C Bool = λ inode. lift (dir_root inode) >>= λ dtree.
      if ltb 2 (Dtree.len_entries dtree)
      then Step.abort_with dev (Answer.err VolumeError.directory_not_empty)
      else emptied inode in
        do
          inode ← Inode.read dev child
          if Dinode.is_dir inode.dinode
              then listed inode
              else Step.abort_with dev (Answer.err VolumeError.not_a_directory)

  unfoldable pub rmdir : ℕ → List ℕ → M S C Bool
  unfolding remove_directory
  rmdir parent name = do
    txid ← Step.begin_transaction dev
    removed ← remove_dir_entry dev parent name
    elim removed [
      | none ↦ Step.abort_with dev (Answer.ok false)
      | some child ↦ remove_directory parent child
    ]

  -- What is done to an inode that has lost a name: it is freed with its blocks, if that was the last
  -- name and the block of its page has no open handle.
  unfoldable pub drop_name : ℕ → Inode → M S C (Unit {0})
  unfolding put_free file_blocks
  drop_name child inode w =
      let new_nlink = inode.dinode.nlink - 1 in
      let update : (List ℕ → List ℕ) → M S C (Unit {0}) =
        λ f. Step.update_inode_page dev child inode.page_block inode.page_offset f in
      (if (new_nlink == 0) && not (has_open_handles w inode.page_block)
          then update put_free >> Step.free_blocks (file_blocks inode.dinode)
          else update (put_nlink new_nlink))
        w

  unfoldable pub remove_file : ℕ → ℕ → M S C Bool
  unfolding drop_name
  remove_file parent child =
      let unnamed : Inode → M S C Bool = λ inode. do
        drop_name child inode
        Step.mark_page_dirty dev child inode.page_block
        mark_inode dev parent
        Step.commit_transaction dev
        pure true
      in do
        inode ← Inode.read dev child
        if Dinode.is_dir inode.dinode
            then Step.abort_with dev (Answer.err VolumeError.invalid_file_type)
            else unnamed inode

  unfoldable pub unlink_file : ℕ → List ℕ → M S C Bool
  unfolding remove_file
  unlink_file parent name = do
    txid ← Step.begin_transaction dev
    removed ← remove_dir_entry dev parent name
    elim removed [
      | none ↦ Step.abort_with dev (Answer.ok false)
      | some child ↦ remove_file parent child
    ]

  -- What `release_file` does to an inode without names and handles.
  unfoldable pub free_inode : ℕ → Inode → M S C (Unit {0})
  unfolding file_blocks
  free_inode ino inode w =
      (if (inode.dinode.nlink == 0) && not (has_open_handles w inode.page_block)
          then Step.free_blocks (file_blocks inode.dinode)
            >> Step.update_inode_page dev ino inode.page_block inode.page_offset
                (λ d. put_u32 d 52 0)
            >> Step.mark_page_dirty dev ino inode.page_block
          else pure tt)
        w

  unfoldable pub release_file : ℕ → M S C (Unit {0})
  unfolding drop_handle free_inode
  release_file ino = do
    inode ← Inode.read dev ino
    drop_handle inode.page_block
    txid ← Step.begin_transaction dev
    free_inode ino inode
    Step.commit_transaction dev
