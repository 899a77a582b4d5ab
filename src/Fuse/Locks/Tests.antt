-- ===== src/Fuse/Locks/Tests.antt =====
-- One inode with a lock, and the theorems on the lock tables of src/fuse/mod.rs applied to it.
use jfsfuse.Prelude.{ℕ, ◌≡◌, refl, true, Option, none, some, [], ◌∷◌}
use jfsfuse.Fuse.Locks.{
  Errno, FuseResult, Flock, PosixLock, LockState, assign, resolve_flock, first_conflict, do_setlk,
  setlk, flock,
}
use jfsfuse.Fuse.Locks.Exclusive.{IsExclusive, LockStep, Reached, Reached-IsExclusive}

abbrev no_locks : LockState
no_locks = record { writable = true; locks = λ ino. none; flock_locks = λ ino. none }

abbrev file_sizes : ℕ → Option ℕ
file_sizes ino = some 1000

abbrev write_lock : ℕ → ℕ → Flock
write_lock start len = record { l_type = 1; l_whence = 0; l_start = start; l_len = len; l_pid = 0 }

abbrev a_lock : PosixLock
a_lock = record { l_type = 1; start = 0; end = 100; owner = 7 }

-- owner 7 has bytes 0 to 99 of inode 5
abbrev one_lock : LockState
one_lock = record no_locks { locks = assign (λ ino. none) 5 (a_lock ∷ []) }

-- Owner 8 is refused in the range, and granted behind it.
refuses :
    ((setlk file_sizes one_lock 5 (write_lock 50 100) 8).0 ≡ FuseResult.err Errno.eagain)
    × ((setlk file_sizes one_lock 5 (write_lock 100 100) 8).0 ≡ FuseResult.ok tt)
unfolding setlk do_setlk resolve_flock first_conflict
refuses = (refl, refl)

Reached-IsExclusive_example :
    IsExclusive (flock (setlk file_sizes no_locks 5 (write_lock 0 100) 7).1 5 2 8).1
Reached-IsExclusive_example =
    Reached-IsExclusive true (flock (setlk file_sizes no_locks 5 (write_lock 0 100) 7).1 5 2 8).1 (
      Reached.then_ (Reached.then_ Reached.empty (LockStep.sets file_sizes 5 7 (write_lock 0 100)))
        (LockStep.flocks 5 2 8))
