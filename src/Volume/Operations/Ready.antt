-- ===== src/Volume/Operations/Ready.antt =====
-- When the operations of src/volume.rs can begin.
use jfsfuse.Prelude.{ℕ, ◌≡◌, ap, true, false, some, arith, List, [], ◌∷◌, none, refl}
use jfsfuse.Transaction
use jfsfuse.Volume.Step
use jfsfuse.Volume.Step.{Answer, VolumeError, World, Device, M, pure, continue, ◌>>=◌, ◌>>◌}
use jfsfuse.Volume.Files
use jfsfuse.Volume.Write
use jfsfuse.Volume.Copy
use jfsfuse.Volume.Dirs
use jfsfuse.Volume.Unlink
use jfsfuse.Volume.Rename
use jfsfuse.Volume.Operations.Ends
use jfsfuse.Volume.Operations.{Op, begins, run, run_all, forget}
use jfsfuse.Volume.Step.Settled.{IsIdle, Ends-forget, continue-pure}

module _ {S C : Type 0} (dev : Device S C) where
  begin-refused :
      (w : World S C) (t : Transaction.ActiveTxn)
      → w.volume.tx_mgr.active ≡ some t
      → Step.begin_transaction dev w ≡ (Answer.err VolumeError.in_progress, w)
  unfolding Step.begin_transaction Transaction.begin
  begin-refused w t e = ground arith

  begin-idle :
      (w : World S C)
      → IsIdle w
      → (Step.begin_transaction dev w).0 ≡ Answer.ok w.volume.tx_mgr.next_txid
  unfolding Step.begin_transaction Transaction.begin
  begin-idle w e = ground arith

  forget-IsIdle :
      {A : Type 0} (m : M S C A) (w : World S C) (u : Unit {0})
      → ((a : A) → (m w).0 ≡ Answer.ok a → IsIdle (m w).1)
      → (forget dev m w).0 ≡ Answer.ok u
      → IsIdle (forget dev m w).1
  unfolding ◌>>=◌
  forget-IsIdle m w u h e = continue-pure tt u (m w) h e

  refused_bind :
      {A B : Type 0} (m : M S C A) (f : A → M S C B) (x : VolumeError) (w : World S C)
      → m w ≡ (Answer.err x, w)
      → (m >>= f) w ≡ (Answer.err x, w)
  unfolding ◌>>=◌
  refused_bind m f x w e = ap (continue f) e

  -- an operation that begins a transaction first
  begun :
      {A B : Type 0} (k : ℕ → M S C A) (f : A → M S C B) (w : World S C) (t : Transaction.ActiveTxn)
      → w.volume.tx_mgr.active ≡ some t
      → ((Step.begin_transaction dev >>= k) >>= f) w ≡ (Answer.err VolumeError.in_progress, w)
  begun k f w t active =
      refused_bind (Step.begin_transaction dev >>= k) f _ w
        (refused_bind (Step.begin_transaction dev) k _ w (begin-refused w t active))

  -- While a transaction is in progress, every operation that begins with one of its own is refused,
  -- and changes nothing.
  pub run-in_progress :
      (op : Op) (w : World S C) (t : Transaction.ActiveTxn)
      → w.volume.tx_mgr.active ≡ some t
      → begins op ≡ true
      → run dev op w ≡ (Answer.err VolumeError.in_progress, w)
  unfolding run Files.truncate Files.fallocate Files.setattr Files.fsync Write.write_at
      Copy.copy_file_range_extent Copy.transfer Dirs.create_file Dirs.mkdir Dirs.mknod Dirs.symlink
      Dirs.link_file Unlink.rmdir Unlink.unlink_file Rename.rename
  run-in_progress (Op.truncate ino size) w t active b = begun _ _ w t active
  run-in_progress (Op.write_at ino offset d) w t active b = begun _ _ w t active
  run-in_progress (Op.setattr ino mode uid gid atime mtime) w t active b = begun _ _ w t active
  run-in_progress (Op.fsync ino) w t active b = begun _ _ w t active
  run-in_progress (Op.create_file parent name) w t active b = begun _ _ w t active
  run-in_progress (Op.mkdir parent name) w t active b = begun _ _ w t active
  run-in_progress (Op.mknod parent name mode rdev) w t active b = begun _ _ w t active
  run-in_progress (Op.symlink parent name path) w t active b = begun _ _ w t active
  run-in_progress (Op.link_file parent name target) w t active b = begun _ _ w t active
  run-in_progress (Op.rmdir parent name) w t active b = begun _ _ w t active
  run-in_progress (Op.unlink_file parent name) w t active b = begun _ _ w t active
  run-in_progress (Op.rename old_parent old_name new_parent new_name) w t active b =
      begun _ _ w t active
  run-in_progress (Op.fallocate ino offset len mode) w t active b =
      let off : Files.is_unsupported mode ≡ false = ground arith in rw off (begun _ _ w t active)
  run-in_progress (Op.copy_range src src_offset dst dst_offset len) w t active b =
      let off : Copy.is_unaligned src_offset dst_offset len ≡ false = ground arith in
      rw off (begun _ _ w t active)
  run-in_progress (Op.release_file ino) w t active b = absurd (cc b)

  run-IsIdle :
      (op : Op) (w : World S C) (u : Unit {0})
      → IsIdle w
      → (run dev op w).0 ≡ Answer.ok u
      → IsIdle (run dev op w).1
  unfolding run
  run-IsIdle (Op.write_at ino offset d) w u idle e =
      (Ends-forget _ tt (Ends.write_at-Ends dev ino offset d)).ends w u e
  run-IsIdle (Op.truncate ino size) w u idle e =
      (Ends-forget _ tt (Ends.truncate-Ends dev ino size)).ends w u e
  run-IsIdle (Op.fallocate ino offset len mode) w u idle e =
      (Ends-forget _ tt (Ends.fallocate-Ends dev ino offset len mode)).ends w u e
  run-IsIdle (Op.setattr ino mode uid gid atime mtime) w u idle e =
      (Ends-forget _ tt (Ends.setattr-Ends dev ino mode uid gid atime mtime)).ends w u e
  run-IsIdle (Op.fsync ino) w u idle e = (Ends-forget _ tt (Ends.fsync-Ends dev ino)).ends w u e
  run-IsIdle (Op.create_file parent name) w u idle e =
      (Ends-forget _ tt (Ends.create_file-Ends dev parent name)).ends w u e
  run-IsIdle (Op.mkdir parent name) w u idle e =
      (Ends-forget _ tt (Ends.mkdir-Ends dev parent name)).ends w u e
  run-IsIdle (Op.mknod parent name mode rdev) w u idle e =
      (Ends-forget _ tt (Ends.mknod-Ends dev parent name mode rdev)).ends w u e
  run-IsIdle (Op.symlink parent name path) w u idle e =
      (Ends-forget _ tt (Ends.symlink-Ends dev parent name path)).ends w u e
  run-IsIdle (Op.link_file parent name target) w u idle e =
      (Ends-forget _ tt (Ends.link_file-Ends dev parent name target)).ends w u e
  run-IsIdle (Op.rmdir parent name) w u idle e =
      (Ends-forget _ tt (Ends.rmdir-Ends dev parent name)).ends w u e
  run-IsIdle (Op.unlink_file parent name) w u idle e =
      (Ends-forget _ tt (Ends.unlink_file-Ends dev parent name)).ends w u e
  run-IsIdle (Op.rename old_parent old_name new_parent new_name) w u idle e =
      (Ends-forget _ tt (Ends.rename-Ends dev old_parent old_name new_parent new_name)).ends w u e
  run-IsIdle (Op.release_file ino) w u idle e =
      (Ends-forget _ tt (Ends.release_file-Ends dev ino)).ends w u e
  run-IsIdle (Op.copy_range src src_offset dst dst_offset len) w u idle e =
      forget-IsIdle (Copy.copy_file_range_extent dev src src_offset dst dst_offset len) w u
        (λ a. Ends.copy-IsIdle dev src src_offset dst dst_offset len w a idle) e

  after-IsIdle :
      (k : M S C (Unit {0})) (x : Answer (Unit {0}) × World S C) (u : Unit {0})
      → ((a : Unit {0}) → x.0 ≡ Answer.ok a → IsIdle x.1)
      → ((v : World S C) → IsIdle v → (k v).0 ≡ Answer.ok u → IsIdle (k v).1)
      → (continue (λ a. k) x).0 ≡ Answer.ok u
      → IsIdle (continue (λ a. k) x).1
  after-IsIdle k (Answer.ok a, v) u idle next e = next v (idle a refl) e
  after-IsIdle k (Answer.err x, v) u idle next e = absurd (cc e)
  after-IsIdle k (Answer.panicked, v) u idle next e = absurd (cc e)

  run_all-IsIdle :
      (ops : List Op) (w : World S C) (u : Unit {0})
      → IsIdle w
      → (run_all dev ops w).0 ≡ Answer.ok u
      → IsIdle (run_all dev ops w).1
  unfolding run_all ◌>>◌ ◌>>=◌
  run_all-IsIdle [] w u idle e = idle
  run_all-IsIdle (op ∷ ops) w u idle e =
      after-IsIdle (run_all dev ops) (run dev op w) u (λ a. run-IsIdle op w a idle)
        (λ v. run_all-IsIdle ops v u) e

  -- From a volume without a transaction in progress, after any operations that all succeed, one after
  -- the other, the next transaction begins, with the next identifier.
  pub run_all-begin_transaction :
      (ops : List Op) (w : World S C)
      → w.volume.tx_mgr.active ≡ none
      → (run_all dev ops w).0 ≡ Answer.ok tt
      → (Step.begin_transaction dev (run_all dev ops w).1).0
        ≡ Answer.ok (run_all dev ops w).1.volume.tx_mgr.next_txid
  run_all-begin_transaction ops w idle e =
      begin-idle (run_all dev ops w).1 (run_all-IsIdle ops w tt idle e)
