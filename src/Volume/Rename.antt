-- ===== src/Volume/Rename.antt =====
-- `rename` of src/volume.rs, within one directory and across two.
use jfsfuse.Prelude.{
  ℕ, ◌-◌, Bool, true, not, ◌&&◌, Option, none, some, List, leb, ◌==◌, if◌then◌else◌, length,
  read_u32, put_u32,
}
use jfsfuse.Types.Dinode
use jfsfuse.Btree.Dtree
use jfsfuse.Btree.Dtree.{Dtree, DirEntry, same_name}
use jfsfuse.Volume.Step
use jfsfuse.Volume.Step.{Answer, VolumeError, World, Device, M, pure, lift, continue, ◌>>=◌, ◌>>◌}
use jfsfuse.Volume.Inode
use jfsfuse.Volume.Inode.{Inode}
use jfsfuse.Volume.Dirs.{
  is_bad_name, count_entries, dir_root, put_dir, put_nlink, insert_dir_entry, remove_dir_entry,
  next_index_of, mark_inode, add_link,
}

-- The parent in the header of a directory root, at offset 244 of the inode.
abbrev pub put_parent : ℕ → List ℕ → List ℕ
put_parent parent d = if leb 248 (length d) then put_u32 d 244 parent else d

module _ {S C : Type 0} (dev : Device S C) where
  abbrev pub refuse : {A : Type 0} → M S C A
  refuse = Step.abort_with dev (Answer.err VolumeError.other)

  -- The tests of an inode that the new name has: a file or a directory like the source, and empty.
  unfoldable pub check_target : Bool → Inode → M S C (Unit {0})
  check_target child_is_dir dest =
      let dest_is_dir = Dinode.is_dir dest.dinode in
      let listed : Dtree → M S C (Unit {0}) = λ t. lift (Step.of_dtree (Dtree.entries t)) >>= λ es.
      if length es == 0 then pure tt else refuse in
      if dest_is_dir && not child_is_dir
      then refuse
      else if child_is_dir && not dest_is_dir
      then refuse
      else if child_is_dir && dest_is_dir
      then lift (dir_root dest) >>= listed
      else pure tt

  -- The number of the entry with the old name, and whether it is a directory.
  unfoldable pub find_source : ℕ → List ℕ → M S C (ℕ × Bool)
  find_source old_parent old_name =
      let found : Option DirEntry → M S C (ℕ × Bool) = λ e. elim e [
        | none ↦ Step.abort_with dev (Answer.err VolumeError.not_found)
        | some entry ↦ Inode.read dev entry.inumber >>= λ child.
            pure (entry.inumber, Dinode.is_dir child.dinode)
      ] in
      do
        parent ← Inode.read dev old_parent
        dtree ← lift (dir_root parent)
        entry ← lift (Step.of_dtree (Dtree.lookup dtree old_name))
        found entry

  -- An entry that has the new name in the new directory goes.
  unfoldable pub clear_target : ℕ → List ℕ → Bool → M S C (Unit {0})
  unfolding check_target
  clear_target new_parent new_name child_is_dir = do
    removed ← remove_dir_entry dev new_parent new_name
    elim removed [
      | none ↦ pure tt
      | some ino ↦ Inode.read dev ino >>= λ dest.
          check_target child_is_dir dest >> Step.mark_page_dirty dev new_parent dest.page_block
    ]

  abbrev pub change_inode : ℕ → (List ℕ → List ℕ) → M S C (Unit {0})
  change_inode ino f = do
    inode ← Inode.read dev ino
    Step.update_inode_page dev ino inode.page_block inode.page_offset f
    Step.mark_page_dirty dev ino inode.page_block

  -- A directory that moves gets its new parent, and the parents their link counts.
  unfoldable pub move_links : ℕ → ℕ → ℕ → M S C (Unit {0})
  unfolding add_link
  move_links child old_parent new_parent =
      change_inode child (put_parent new_parent)
      >> change_inode old_parent (λ d. put_nlink (read_u32 d 40 - 1) d)
      >> add_link dev new_parent

  unfoldable pub move_across : ℕ → List ℕ → ℕ → List ℕ → ℕ → Bool → M S C (Unit {0})
  unfolding clear_target move_links
  move_across old_parent old_name new_parent new_name child child_is_dir =
      let entered : M S C (Unit {0}) = do
        mark_inode dev new_parent
        removed ← remove_dir_entry dev old_parent old_name
        mark_inode dev old_parent
        if child_is_dir then move_links child old_parent new_parent else pure tt
      in do
        clear_target new_parent new_name child_is_dir
        index ← next_index_of dev new_parent
        inserted ← insert_dir_entry dev new_parent new_name child index
        if inserted then entered else refuse

  -- The new root of a directory in which the old name becomes the new one; each step's error is `?`.
  unfoldable pub renamed : Dtree → List ℕ → List ℕ → ℕ → ℕ → Answer Dtree
  renamed t old_name new_name child index =
      let without_old = Dtree.remove t old_name in
      let kept : Dtree.Outcome (Option ℕ) × Dtree = (Dtree.Outcome.ok none, t) in
      let first = if same_name old_name new_name then kept else without_old in
      let second = Dtree.remove first.1 new_name in
      let third = Dtree.insert second.1 new_name child index in
      elim first.0 [
        | Dtree.Outcome.err ↦ Answer.err VolumeError.other
        | Dtree.Outcome.panic ↦ Answer.panicked
        | Dtree.Outcome.ok a ↦ elim second.0 [
          | Dtree.Outcome.err ↦ Answer.err VolumeError.other
          | Dtree.Outcome.panic ↦ Answer.panicked
          | Dtree.Outcome.ok b ↦ elim third.0 [
            | Dtree.Outcome.err ↦ Answer.err VolumeError.other
            | Dtree.Outcome.panic ↦ Answer.panicked
            | Dtree.Outcome.ok done ↦ Answer.ok third.1
          ]
        ]
      ]

  unfoldable pub rename_within : ℕ → List ℕ → List ℕ → ℕ → Bool → M S C (Unit {0})
  unfolding check_target renamed
  rename_within parent old_name new_name child child_is_dir =
      let checked : Option DirEntry → M S C (Unit {0}) = λ e. elim e [
        | none ↦ pure tt
        | some entry ↦ Inode.read dev entry.inumber >>= check_target child_is_dir
      ] in
      do
        inode ← Inode.read dev parent
        dtree ← lift (dir_root inode)
        entry ← lift (Step.of_dtree (Dtree.lookup dtree new_name))
        checked entry
        index ← lift (count_entries dtree)
        again ← Inode.read dev parent
        before ← lift (dir_root again)
        after ← lift (renamed before old_name new_name child index)
        Step.update_inode_page dev parent again.page_block again.page_offset (put_dir after)
        Step.mark_page_dirty dev parent again.page_block

  unfoldable pub rename : ℕ → List ℕ → ℕ → List ℕ → M S C Bool
  unfolding find_source move_across rename_within
  rename old_parent old_name new_parent new_name =
      let moved : ℕ × Bool → M S C Bool = λ source.
        (if old_parent == new_parent
          then rename_within old_parent old_name new_name source.0 source.1
          else move_across old_parent old_name new_parent new_name source.0 source.1)
        >> Step.commit_transaction dev
        >> pure true in
      do
        txid ← Step.begin_transaction dev
        if is_bad_name old_name
            then refuse
            else if is_bad_name new_name
            then refuse
            else find_source old_parent old_name >>= moved
