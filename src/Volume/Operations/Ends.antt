-- ===== src/Volume/Operations/Ends.antt =====
-- The transactions at the end of each operation of src/volume.rs, by its last steps.
use jfsfuse.Prelude.{
  ℕ, ◌/◌, ◌≡◌, Bool, true, false, not, ltb, leb, length, Option, none, some, List, [], ◌∷◌,
  if◌then◌else◌,
}
use jfsfuse.Types.XtRoot.{XtRoot}
use jfsfuse.Types.Dinode
use jfsfuse.Btree.Dtree
use jfsfuse.Volume.Step
use jfsfuse.Volume.Step.{Answer, VolumeError, World, Device, M, pure, lift, continue, ◌>>=◌, ◌>>◌}
use jfsfuse.Volume.Step.Settled.{
  IsIdle, Ends, Ends-bind, Ends-then, Ends-if, Ends-pure, Ends-last, commit_transaction-IsIdle,
  abort_with-IsIdle,
}
use jfsfuse.Volume.Files
use jfsfuse.Volume.Write
use jfsfuse.Volume.Copy
use jfsfuse.Volume.Dirs
use jfsfuse.Volume.Unlink
use jfsfuse.Volume.Rename

module _ {S C : Type 0} (dev : Device S C) where
  commit-Ends : Ends (Step.commit_transaction dev)
  commit-Ends = Ends-last (commit_transaction-IsIdle dev)

  abort-Ends : {A : Type 0} (a : Answer A) → Ends (Step.abort_with dev a)
  abort-Ends a = Ends-last (abort_with-IsIdle dev a)

  err-Ends : {A : Type 0} (x : VolumeError) → Ends {S = S} {C = C} {A = A} (lift (Answer.err x))
  err-Ends x = record { ends = λ w a e. absurd (cc e) }

  -- the last steps of most operations
  done-Ends : {A : Type 0} (a : A) → Ends (Step.commit_transaction dev >> pure a)
  done-Ends a = Ends-pure _ a commit-Ends

  pub truncate-Ends : (ino size : ℕ) → Ends (Files.truncate dev ino size)
  unfolding Files.truncate
  truncate-Ends ino size =
      Ends-bind _ _
        λ t. Ends-bind _ _ λ i. Ends-bind _ _ λ x. Ends-then _ _ (Ends-then _ _ commit-Ends)

  pub fallocate-Ends : (ino offset len mode : ℕ) → Ends (Files.fallocate dev ino offset len mode)
  unfolding Files.fallocate
  fallocate-Ends ino offset len mode = Ends-if _ (err-Ends VolumeError.other) (
      Ends-bind _ _ λ t. Ends-bind _ _ λ i. Ends-bind _ _ λ x.
        Ends-bind _ _
          λ r. Ends-then _ _ (Ends-then _ _ (Ends-then _ _ (Ends-then _ _ commit-Ends))))

  pub setattr-Ends :
      (ino : ℕ) (mode uid gid atime mtime : Option ℕ)
      → Ends (Files.setattr dev ino mode uid gid atime mtime)
  unfolding Files.setattr
  setattr-Ends ino mode uid gid atime mtime =
      Ends-bind _ _ λ t. Ends-bind _ _ λ i. Ends-then _ _ (Ends-then _ _ commit-Ends)

  pub fsync-Ends : (ino : ℕ) → Ends (Files.fsync dev ino)
  unfolding Files.fsync
  fsync-Ends ino = Ends-bind _ _ λ t. Ends-bind _ _ λ i. Ends-then _ _ (Ends-then _ _ commit-Ends)

  or_abort-IsIdle :
      (x : Answer (Unit {0}) × World S C) → IsIdle x.1 → IsIdle (Write.or_abort dev x).1
  or_abort-IsIdle (Answer.ok u, w) h = h
  or_abort-IsIdle (Answer.panicked, w) h = h
  or_abort-IsIdle (Answer.err e, w) h = abort_with-IsIdle dev (Answer.err e) w

  commit_or_abort-IsIdle : (w : World S C) → IsIdle (Write.commit_or_abort dev w).1
  unfolding Write.commit_or_abort
  commit_or_abort-IsIdle w =
      or_abort-IsIdle (Step.commit_transaction dev w) (commit_transaction-IsIdle dev w)

  pub write_at-Ends : (ino offset : ℕ) (d : List ℕ) → Ends (Write.write_at dev ino offset d)
  unfolding Write.write_at Write.finish_write
  write_at-Ends ino offset d = Ends-bind _ _ λ t. Ends-bind _ _ λ i. Ends-bind _ _ λ x.
      Ends-bind _ _ λ st. Ends-then _ _ (
        Ends-then _ _ (
          Ends-then _ _
            (Ends-then _ _ (Ends-then _ _ (Ends-pure _ _ (Ends-last commit_or_abort-IsIdle))))))

  add_child-Ends :
      (parent : ℕ) (name : List ℕ) (found : ℕ × ℕ × ℕ) (update : List ℕ → List ℕ)
      (last : M S C (Unit {0}))
      → Ends (Dirs.add_child dev parent name found update last)
  unfolding Dirs.add_child
  add_child-Ends parent name (child, block, off) update last = Ends-then _ _ (
      Ends-then _ _ (
        Ends-bind _ _ λ index. Ends-bind _ _ λ inserted.
          Ends-if inserted (Ends-pure _ child (Ends-then _ _ commit-Ends)) (abort-Ends _)))

  pub create_file-Ends : (parent : ℕ) (name : List ℕ) → Ends (Dirs.create_file dev parent name)
  unfolding Dirs.create_file
  create_file-Ends parent name =
      Ends-bind _ _ λ t. Ends-bind _ _ λ found. Ends-if _ (abort-Ends _) (add_child-Ends _ _ _ _ _)

  pub mkdir-Ends : (parent : ℕ) (name : List ℕ) → Ends (Dirs.mkdir dev parent name)
  unfolding Dirs.mkdir
  mkdir-Ends parent name =
      Ends-bind _ _ λ t. Ends-bind _ _ λ found. Ends-if _ (abort-Ends _) (add_child-Ends _ _ _ _ _)

  pub mknod-Ends :
      (parent : ℕ) (name : List ℕ) (mode rdev : ℕ) → Ends (Dirs.mknod dev parent name mode rdev)
  unfolding Dirs.mknod
  mknod-Ends parent name mode rdev = Ends-bind _ _ λ t.
      Ends-if (Dirs.is_bad_name name) (abort-Ends _) (
        Ends-if (not (Dirs.is_special (Dinode.file_type mode))) (abort-Ends _)
          (Ends-bind _ _ λ found. add_child-Ends _ _ _ _ _))

  pub symlink-Ends : (parent : ℕ) (name path : List ℕ) → Ends (Dirs.symlink dev parent name path)
  unfolding Dirs.symlink
  symlink-Ends parent name path = Ends-bind _ _ λ t. Ends-bind _ _ λ found.
      Ends-if (Dirs.is_bad_name name) (abort-Ends _)
        (Ends-if (leb 128 (length path)) (abort-Ends _) (add_child-Ends _ _ _ _ _))

  pub link_file-Ends :
      (parent : ℕ) (name : List ℕ) (target : ℕ) → Ends (Dirs.link_file dev parent name target)
  unfolding Dirs.link_file
  link_file-Ends parent name target = Ends-bind _ _ λ t. Ends-bind _ _ λ i.
      Ends-if (Dinode.is_dir i.dinode) (abort-Ends _) (
        Ends-if (Dirs.is_bad_name name) (abort-Ends _) (
          Ends-bind _ _ λ index. Ends-bind _ _ λ inserted.
            Ends-if inserted (Ends-then _ _ (Ends-then _ _ (Ends-then _ _ (done-Ends target))))
              (abort-Ends _)))

  remove_directory-Ends : (parent child : ℕ) → Ends (Unlink.remove_directory dev parent child)
  unfolding Unlink.remove_directory
  remove_directory-Ends parent child = Ends-bind _ _ λ i.
      Ends-if (Dinode.is_dir i.dinode)
        (Ends-bind _ _ λ t.
          Ends-if (ltb 2 (Dtree.len_entries t)) (abort-Ends _)
            (Ends-then _ _ (Ends-then _ _ (Ends-then _ _ (done-Ends true)))))
        (abort-Ends _)

  remove_file-Ends : (parent child : ℕ) → Ends (Unlink.remove_file dev parent child)
  unfolding Unlink.remove_file
  remove_file-Ends parent child =
      Ends-bind _ _ λ i.
        Ends-if _ (abort-Ends _) (Ends-then _ _ (Ends-then _ _ (Ends-then _ _ (done-Ends true))))

  removed-Ends :
      (k : ℕ → M S C Bool)
      → ((child : ℕ) → Ends (k child))
      → (r : Option ℕ)
      → Ends {A = Bool}
          (elim r [ none ↦ Step.abort_with dev (Answer.ok false) | some child ↦ k child ])
  removed-Ends k h none = abort-Ends _
  removed-Ends k h (some child) = h child

  pub rmdir-Ends : (parent : ℕ) (name : List ℕ) → Ends (Unlink.rmdir dev parent name)
  unfolding Unlink.rmdir
  rmdir-Ends parent name =
      Ends-bind _ _ λ t. Ends-bind _ _ (removed-Ends _ (remove_directory-Ends parent))

  pub unlink_file-Ends : (parent : ℕ) (name : List ℕ) → Ends (Unlink.unlink_file dev parent name)
  unfolding Unlink.unlink_file
  unlink_file-Ends parent name =
      Ends-bind _ _ λ t. Ends-bind _ _ (removed-Ends _ (remove_file-Ends parent))

  pub release_file-Ends : (ino : ℕ) → Ends (Unlink.release_file dev ino)
  unfolding Unlink.release_file
  release_file-Ends ino =
      Ends-bind _ _ λ i. Ends-then _ _ (Ends-bind _ _ λ t. Ends-then _ _ commit-Ends)

  pub rename-Ends :
      (old_parent : ℕ) (old_name : List ℕ) (new_parent : ℕ) (new_name : List ℕ)
      → Ends (Rename.rename dev old_parent old_name new_parent new_name)
  unfolding Rename.rename
  rename-Ends old_parent old_name new_parent new_name = Ends-bind _ _ λ t.
      Ends-if (Dirs.is_bad_name old_name) (abort-Ends _) (
        Ends-if (Dirs.is_bad_name new_name) (abort-Ends _)
          (Ends-bind _ _ λ source. Ends-pure _ true (Ends-then _ _ commit-Ends)))

  placed-Ends :
      (k : XtRoot → M S C (Option ℕ))
      → ((r : XtRoot) → Ends (k r))
      → (o : Option XtRoot)
      → Ends {A = Option ℕ} (elim o [ none ↦ Step.abort_with dev (Answer.ok none) | some r ↦ k r ])
  placed-Ends k h none = abort-Ends _
  placed-Ends k h (some r) = h r

  receive-Ends :
      (ino start offset len : ℕ) (taken : List (ℕ × ℕ × ℕ))
      → Ends (Copy.receive dev ino start offset len taken)
  unfolding Copy.receive
  receive-Ends ino start offset len taken = Ends-bind _ _ λ i. Ends-bind _ _ λ x.
      Ends-then _ _ (placed-Ends _ (λ r. Ends-then _ _ (Ends-then _ _ (done-Ends (some len)))) _)

  taken-Ends :
      (k : ℕ × ℕ × ℕ → List (ℕ × ℕ × ℕ) → M S C (Option ℕ))
      → ((t : ℕ × ℕ × ℕ) (ts : List (ℕ × ℕ × ℕ)) → Ends (k t ts))
      → (l : List (ℕ × ℕ × ℕ))
      → Ends {A = Option ℕ} (elim l [ [] ↦ Step.abort_with dev (Answer.ok none) | t ∷ ts ↦ k t ts ])
  taken-Ends k h [] = abort-Ends _
  taken-Ends k h (t ∷ ts) = h t ts

  transfer-Ends :
      (src src_offset dst dst_offset len : ℕ)
      → Ends (Copy.transfer dev src src_offset dst dst_offset len)
  unfolding Copy.transfer
  transfer-Ends src src_offset dst dst_offset len = Ends-bind _ _ λ t. Ends-bind _ _ λ i.
      Ends-bind _ _ λ x.
        taken-Ends _
          (λ e es.
            Ends-then _ _
              (Ends-then _ _ (receive-Ends dst (src_offset / 4096) dst_offset len (e ∷ es))))
          _

  if-IsIdle :
      {A : Type 0} (b : Bool) (m : M S C A) (x a : A) (w : World S C)
      → Ends m
      → IsIdle w
      → ((if b then pure x else m) w).0 ≡ Answer.ok a
      → IsIdle ((if b then pure x else m) w).1
  if-IsIdle true m x a w h idle e = idle
  if-IsIdle false m x a w h idle e = h.ends w a e

  -- Where the request is not aligned, no transaction is begun.
  pub copy-IsIdle :
      (src src_offset dst dst_offset len : ℕ) (w : World S C) (a : Option ℕ)
      → IsIdle w
      → (Copy.copy_file_range_extent dev src src_offset dst dst_offset len w).0 ≡ Answer.ok a
      → IsIdle (Copy.copy_file_range_extent dev src src_offset dst dst_offset len w).1
  unfolding Copy.copy_file_range_extent
  copy-IsIdle src src_offset dst dst_offset len w a idle e =
      if-IsIdle (Copy.is_unaligned src_offset dst_offset len) _ none a w
        (transfer-Ends src src_offset dst dst_offset len) idle e
