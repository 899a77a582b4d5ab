-- ===== src/Fuse/Locks.antt =====
-- The lock tables of `FuseFs` in src/fuse/mod.rs: POSIX byte-range locks and BSD `flock` locks.
-- An `i16` or `i64` is its two's complement bit pattern, so `as u64` and `as i64` change nothing;
-- `HashMap<u32, Vec<_>>` is a function. The size that `Inode::read` finds is an argument `size_of`,
-- none where the read fails.
mod Tests
pub mod Exclusive
pub mod Ranges
use jfsfuse.Prelude.{
  ℕ, ◌+◌, ◌-◌, ◌/◌, ◌%◌, ◌^◌, ◌<◌, min, max, ap, Bool, false, not, ◌&&◌, ◌||◌, Option, none, some,
  List, [], ◌∷◌, ◌++◌, leb, ◌==◌, if◌then◌else◌, length, set, retain, any, byte,
}

abbrev pub f_rdlck : ℕ
f_rdlck = 0

abbrev pub f_wrlck : ℕ
f_wrlck = 1

abbrev pub f_unlck : ℕ
f_unlck = 2

abbrev pub lock_sh : ℕ
lock_sh = 1

abbrev pub lock_ex : ℕ
lock_ex = 2

abbrev pub lock_nb : ℕ
lock_nb = 4

abbrev pub lock_un : ℕ
lock_un = 8

abbrev pub seek_set : ℕ
seek_set = 0

abbrev pub seek_end : ℕ
seek_end = 2

-- `u64::MAX`
abbrev pub u64_max : ℕ
u64_max = 2 ^ 64 - 1

pub data Errno : Type 0 where
  enoent eagain einval erofs : Errno

pub data FuseResult {ℓ} (A : Type ℓ) : Type ℓ where
  ok : A → FuseResult A
  err : Errno → FuseResult A

pub record Flock : Type 0 where
  pub l_type : ℕ
  pub l_whence : ℕ
  pub l_start : ℕ
  pub l_len : ℕ
  pub l_pid : ℕ

pub record PosixLock : Type 0 where
  pub l_type : ℕ
  pub start : ℕ
  pub end : ℕ
  pub owner : ℕ

pub record FlockLock : Type 0 where
  pub kind : ℕ
  pub owner : ℕ

pub record LockState : Type 0 where
  pub writable : Bool
  pub locks : ℕ → Option (List PosixLock)
  pub flock_locks : ℕ → Option (List FlockLock)

-- `PosixLock::conflicts_with`
abbrev pub posix_conflict : PosixLock → PosixLock → Bool
posix_conflict a b =
    if a.owner == b.owner
    then false
    else if leb b.end a.start || leb a.end b.start
    then false
    else a.l_type == f_wrlck || b.l_type == f_wrlck

-- `FlockLock::conflicts_with`
abbrev pub flock_conflict : FlockLock → FlockLock → Bool
flock_conflict a b = if a.owner == b.owner then false else a.kind == lock_ex || b.kind == lock_ex

-- the list at a key, empty where there is none: `get` followed by a loop, and `entry().or_default()`
abbrev pub listed {ℓ} : {A : Type ℓ} → (ℕ → Option (List A)) → ℕ → List A
listed m ino = elim (m ino) [ none ↦ [] | some l ↦ l ]

-- `get_mut(&ino)`, and the entry replaced where there is one
abbrev pub alter {ℓ} :
    {A : Type ℓ} → (ℕ → Option (List A)) → ℕ → (List A → List A) → ℕ → Option (List A)
alter m ino f j = elim (m j) [ none ↦ none | some l ↦ some (if j == ino then f l else l) ]

abbrev pub assign {ℓ} : {A : Type ℓ} → (ℕ → Option (List A)) → ℕ → List A → ℕ → Option (List A)
assign m ino l j = if j == ino then some l else m j

-- The sum with the length wraps, as it does without overflow checks.
unfoldable pub resolve_flock : Flock → ℕ → ℕ × ℕ
resolve_flock f file_size =
    let start = if f.l_whence == seek_end then min u64_max (file_size + f.l_start) else f.l_start in
    let to_end = f.l_len == 0 || leb (2 ^ 63) f.l_len in
    (start, if to_end then u64_max else (start + f.l_len) % 2 ^ 64)

-- The loop of `check_lock_conflict`.
unfoldable pub first_conflict : List PosixLock → ℕ → ℕ → ℕ → ℕ → Option PosixLock
first_conflict [] start end l_type owner = none
first_conflict (e ∷ es) start end l_type owner =
    let rest = first_conflict es start end l_type owner in
    if leb end e.start || leb e.end start
    then rest
    else if e.owner == owner
    then rest
    else if l_type == f_wrlck || e.l_type == f_wrlck
    then some e
    else rest

abbrev pub check_lock_conflict : LockState → ℕ → ℕ → ℕ → ℕ → ℕ → Option PosixLock
check_lock_conflict s ino start end l_type owner =
    first_conflict (listed s.locks ino) start end l_type owner

unfoldable pub release_owner_locks : LockState → ℕ → ℕ → LockState
release_owner_locks s ino owner = record s {
  locks = alter s.locks ino (retain (λ l. not (l.owner == owner)));
}

-- `l.end <= start || l.start >= end`
abbrev pub apart : PosixLock → PosixLock → Bool
apart l new = leb l.end new.start || leb new.end l.start

-- The new list of an inode: the owner's locks in the range go, and the new one comes last.
abbrev pub replace_lock : List PosixLock → PosixLock → List PosixLock
replace_lock ls new = retain (λ l. not (l.owner == new.owner) || apart l new) ls ++ (new ∷ [])

unfoldable pub do_setlk :
    (ℕ → Option ℕ) → LockState → ℕ → Flock → ℕ → FuseResult (Unit {0}) × LockState
do_setlk size_of s ino f owner = elim (size_of ino) [
  | none ↦ (FuseResult.err Errno.enoent, s)
  | some file_size ↦
      let (start, end) = resolve_flock f file_size in
      if f.l_type == f_unlck
      then (FuseResult.ok tt, release_owner_locks s ino owner)
      else elim (check_lock_conflict s ino start end f.l_type owner) [
        | some c ↦ (FuseResult.err Errno.eagain, s)
        | none ↦
            let new : PosixLock = record {
              l_type = f.l_type;
              start = start;
              end = end;
              owner = owner;
            } in
            (
              FuseResult.ok tt,
              record s { locks = assign s.locks ino (replace_lock (listed s.locks ino) new) },
            )
      ]
]

-- What `do_getlk` tells of a lock that conflicts.
abbrev pub described : PosixLock → Flock
described c = record {
  l_type = c.l_type;
  l_whence = seek_set;
  l_start = c.start;
  l_len = if c.end == u64_max then 0 else (c.end + 2 ^ 64 - c.start) % 2 ^ 64;
  l_pid = c.owner;
}

unfoldable pub do_getlk : (ℕ → Option ℕ) → LockState → ℕ → Flock → ℕ → FuseResult Flock
do_getlk size_of s ino f owner = elim (size_of ino) [
  | none ↦ FuseResult.err Errno.enoent
  | some file_size ↦
      let (start, end) = resolve_flock f file_size in
      elim (check_lock_conflict s ino start end f.l_type owner) [
        | some c ↦ FuseResult.ok (described c)
        | none ↦ FuseResult.ok (record f { l_type = f_unlck; l_pid = 0 })
      ]
]

unfoldable pub getlk : (ℕ → Option ℕ) → LockState → ℕ → Flock → ℕ → FuseResult Flock
getlk size_of s ino f owner =
    if not s.writable
    then FuseResult.err Errno.erofs
    else if not (f.l_type == f_rdlck) && not (f.l_type == f_wrlck)
    then FuseResult.err Errno.einval
    else do_getlk size_of s ino f owner

-- `setlk`, and `setlkw`, which has the same body
unfoldable pub setlk :
    (ℕ → Option ℕ) → LockState → ℕ → Flock → ℕ → FuseResult (Unit {0}) × LockState
setlk size_of s ino f owner =
    if not s.writable
    then (FuseResult.err Errno.erofs, s)
    else if not (f.l_type == f_unlck) && not (f.l_type == f_rdlck) && not (f.l_type == f_wrlck)
    then (FuseResult.err Errno.einval, s)
    else do_setlk size_of s ino f owner

unfoldable pub release_flock_owner : LockState → ℕ → ℕ → LockState
release_flock_owner s ino owner = record s {
  flock_locks = alter s.flock_locks ino (retain (λ l. not (l.owner == owner)));
}

unfoldable pub release_locks : LockState → ℕ → ℕ → LockState
release_locks s ino owner = release_flock_owner (release_owner_locks s ino owner) ino owner

-- `operation & LOCK_NB != 0`, and `operation & !LOCK_NB`
abbrev pub is_nonblocking : ℕ → Bool
is_nonblocking operation = operation / lock_nb % 2 == 1

abbrev pub kind_of : ℕ → ℕ
kind_of operation = operation - (if is_nonblocking operation then lock_nb else 0)

-- Blocking or not, the answer to a conflict is `EAGAIN`.
unfoldable pub flock : LockState → ℕ → ℕ → ℕ → FuseResult (Unit {0}) × LockState
flock s ino operation owner =
    let kind = kind_of operation in
    let new : FlockLock = record { kind = kind; owner = owner } in
    let old = listed s.flock_locks ino in
    if not s.writable
    then (FuseResult.err Errno.erofs, s)
    else if kind == lock_un
    then (FuseResult.ok tt, release_flock_owner s ino owner)
    else if not (kind == lock_sh) && not (kind == lock_ex)
    then (FuseResult.err Errno.einval, s)
    else if any (λ l. not (l.owner == owner) && flock_conflict l new) old
    then (FuseResult.err Errno.eagain, s)
    else (
      FuseResult.ok tt,
      record s {
        flock_locks =
            assign s.flock_locks ino (retain (λ l. not (l.owner == owner)) old ++ (new ∷ []));
      },
    )
