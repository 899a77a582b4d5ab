-- ===== src/Volume/Operations.antt =====
-- The operations of a volume that change files and directories, as one type, and a run of several.
pub mod Ends
pub mod Ready
mod Tests
use jfsfuse.Prelude.{ℕ, ◌%◌, Bool, true, false, not, ◌&&◌, Option, List, [], ◌∷◌, ◌==◌}
use jfsfuse.Volume.Step.{Device, World, M, pure, ◌>>=◌, ◌>>◌}
use jfsfuse.Volume.Files
use jfsfuse.Volume.Write
use jfsfuse.Volume.Copy
use jfsfuse.Volume.Dirs
use jfsfuse.Volume.Unlink
use jfsfuse.Volume.Rename

pub data Op : Type 0 where
  write_at : ℕ → ℕ → List ℕ → Op
  truncate : ℕ → ℕ → Op
  fallocate : ℕ → ℕ → ℕ → ℕ → Op
  copy_range : ℕ → ℕ → ℕ → ℕ → ℕ → Op
  setattr : ℕ → Option ℕ → Option ℕ → Option ℕ → Option ℕ → Option ℕ → Op
  fsync : ℕ → Op
  create_file : ℕ → List ℕ → Op
  mkdir : ℕ → List ℕ → Op
  mknod : ℕ → List ℕ → ℕ → ℕ → Op
  symlink : ℕ → List ℕ → List ℕ → Op
  link_file : ℕ → List ℕ → ℕ → Op
  rmdir : ℕ → List ℕ → Op
  unlink_file : ℕ → List ℕ → Op
  rename : ℕ → List ℕ → ℕ → List ℕ → Op
  release_file : ℕ → Op

-- Whether the operation begins a transaction before all else. `release_file` changes the count of
-- handles first, and two others have requests that they answer at once.
abbrev pub begins : Op → Bool
begins (fallocate ino offset len mode) = not (Files.is_unsupported mode)
begins (copy_range src src_offset dst dst_offset len) =
    not (Copy.is_unaligned src_offset dst_offset len)
begins (release_file ino) = false
begins _ = true

module _ {S C : Type 0} (dev : Device S C) where
  -- An operation, without what it answers beside its success.
  abbrev pub forget : {A : Type 0} → M S C A → M S C (Unit {0})
  forget m = m >>= λ a. pure tt

  unfoldable pub run : Op → M S C (Unit {0})
  run (write_at ino offset d) = forget (Write.write_at dev ino offset d)
  run (truncate ino size) = forget (Files.truncate dev ino size)
  run (fallocate ino offset len mode) = forget (Files.fallocate dev ino offset len mode)
  run (copy_range src src_offset dst dst_offset len) =
      forget (Copy.copy_file_range_extent dev src src_offset dst dst_offset len)
  run (setattr ino mode uid gid atime mtime) =
      forget (Files.setattr dev ino mode uid gid atime mtime)
  run (fsync ino) = forget (Files.fsync dev ino)
  run (create_file parent name) = forget (Dirs.create_file dev parent name)
  run (mkdir parent name) = forget (Dirs.mkdir dev parent name)
  run (mknod parent name mode rdev) = forget (Dirs.mknod dev parent name mode rdev)
  run (symlink parent name path) = forget (Dirs.symlink dev parent name path)
  run (link_file parent name target) = forget (Dirs.link_file dev parent name target)
  run (rmdir parent name) = forget (Unlink.rmdir dev parent name)
  run (unlink_file parent name) = forget (Unlink.unlink_file dev parent name)
  run (rename old_parent old_name new_parent new_name) =
      forget (Rename.rename dev old_parent old_name new_parent new_name)
  run (release_file ino) = forget (Unlink.release_file dev ino)

  -- Operations one after the other, up to the first that fails.
  unfoldable pub run_all : List Op → M S C (Unit {0})
  run_all [] w = pure tt w
  run_all (op ∷ ops) w = (run op >> run_all ops) w
