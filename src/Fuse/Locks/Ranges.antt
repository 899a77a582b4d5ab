-- ===== src/Fuse/Locks/Ranges.antt =====
-- What POSIX lock requests of src/fuse/mod.rs answer, and which bytes an owner holds after one.
use jfsfuse.Prelude.{
  ℕ, ◌≡◌, refl, sym, ap, ◌∙◌, ◌⊎◌, inl, inr, Bool, true, false, not, ◌&&◌, ◌||◌, Option, none, some,
  List, [], ◌∷◌, arith, ltb, leb, ◌==◌, if◌then◌else◌, ==→≡, ==_refl, Bool-cases, Option-cases,
  retain, any, All, any-append,
}
use jfsfuse.Fuse.Locks.{
  Errno, FuseResult, Flock, PosixLock, LockState, f_unlck, posix_conflict, listed, assign,
  resolve_flock, first_conflict, replace_lock, apart, described, do_setlk, setlk, getlk,
}
use jfsfuse.Fuse.Locks.Exclusive.{listed-assign}

-- the lock that a request asks for, on a file of `size` bytes
abbrev pub request : Flock → ℕ → ℕ → PosixLock
request f size owner =
    let r = resolve_flock f size in
    record { l_type = f.l_type; start = r.0; end = r.1; owner = owner }

-- the answer of `getlk` where nothing stands in the way
abbrev pub unlocked : Flock → Flock
unlocked f = record f { l_type = f_unlck; l_pid = 0 }

abbrev pub Occurs : PosixLock → List PosixLock → Type 0
Occurs c [] = ⊥
Occurs c (l ∷ ls) = (c ≡ l) ⊎ Occurs c ls

-- The answers of the two calls: the inode cannot be read; a lock of the inode conflicts with the
-- request; or none does.
abbrev pub Answers : (ℕ → Option ℕ) → LockState → ℕ → ℕ → Flock → Type 0
Answers size_of s ino owner f =
    ((size_of ino ≡ none)
      × (getlk size_of s ino f owner ≡ FuseResult.err Errno.enoent)
      × (setlk size_of s ino f owner ≡ (FuseResult.err Errno.enoent, s)))
    ⊎ ((size : ℕ) × (c : PosixLock) × (size_of ino ≡ some size)
        × Occurs c (listed s.locks ino)
        × (posix_conflict c (request f size owner) ≡ true)
        × (getlk size_of s ino f owner ≡ FuseResult.ok (described c))
        × (setlk size_of s ino f owner ≡ (FuseResult.err Errno.eagain, s)))
    ⊎ ((size : ℕ) × (size_of ino ≡ some size)
        × All (λ l. posix_conflict l (request f size owner) ≡ false) (listed s.locks ino)
        × (getlk size_of s ino f owner ≡ FuseResult.ok (unlocked f))
        × (setlk size_of s ino f owner ≡ (
          FuseResult.ok tt,
          record s {
            locks = assign s.locks ino (replace_lock (listed s.locks ino) (request f size owner));
          },
        )))

abbrev pub holds_byte : ℕ → ℕ → PosixLock → Bool
holds_byte owner p l = l.owner == owner && leb l.start p && ltb p l.end

abbrev pub covers : List PosixLock → ℕ → ℕ → Bool
covers ls owner p = any (holds_byte owner p) ls

any-retain {ℓ} :
    {A : Type ℓ} (p q : A → Bool) (xs : List A) → any p (retain q xs) ≡ any (λ x. q x && p x) xs
any-retain p q [] = refl
any-retain p q (x ∷ xs) = elim (Bool-cases (q x)) [
  | inl e ↦ rw (e, any-retain p q xs) refl
  | inr e ↦ rw (e, any-retain p q xs) refl
]

any_ext {ℓ} :
    {A : Type ℓ} (p q : A → Bool) (xs : List A) → ((x : A) → p x ≡ q x) → any p xs ≡ any q xs
any_ext p q [] h = refl
any_ext p q (x ∷ xs) h = rw (h x, any_ext p q xs h) refl

covers-replace_lock :
    (ls : List PosixLock) (new : PosixLock) (o p : ℕ)
    → covers (replace_lock ls new) o p ≡ (
        any (λ l. (not (l.owner == new.owner) || apart l new) && holds_byte o p l) ls
        || holds_byte o p new)
covers-replace_lock ls new o p =
    let kept : PosixLock → Bool = λ l. not (l.owner == new.owner) || apart l new in
    any-append (holds_byte o p) (retain kept ls) (new ∷ [])
    ∙ rw (any-retain (holds_byte o p) kept ls) (ground arith)

covers-replace_lock_other :
    (ls : List PosixLock) (new : PosixLock) (o p : ℕ)
    → (o == new.owner) ≡ false
    → covers (replace_lock ls new) o p ≡ covers ls o p
covers-replace_lock_other ls new o p h =
    let same =
      any_ext (λ (l : PosixLock). (not (l.owner == new.owner) || apart l new) && holds_byte o p l)
        (holds_byte o p) ls (λ l. ground arith) in
    let mine : holds_byte o p new ≡ false = ground arith in
    covers-replace_lock ls new o p ∙ ground (arith, same, mine)

covers-replace_lock_self :
    (ls : List PosixLock) (new : PosixLock) (o p : ℕ)
    → (o == new.owner) ≡ true
    → covers (replace_lock ls new) o p
      ≡ (any (λ l. holds_byte new.owner p l && apart l new) ls || holds_byte new.owner p new)
covers-replace_lock_self ls new o p h =
    let same =
      any_ext (λ (l : PosixLock). (not (l.owner == new.owner) || apart l new) && holds_byte o p l)
        (λ l. holds_byte new.owner p l && apart l new) ls (λ l. ground arith) in
    let mine : holds_byte o p new ≡ holds_byte new.owner p new = ground arith in
    covers-replace_lock ls new o p ∙ rw (same, mine) refl

granted :
    (size_of : ℕ → Option ℕ) (s t : LockState) (ino owner : ℕ) (f : Flock) (size : ℕ)
    → (f.l_type == f_unlck) ≡ false
    → size_of ino ≡ some size
    → do_setlk size_of s ino f owner ≡ (FuseResult.ok tt, t)
    → t ≡ record s {
      locks = assign s.locks ino (replace_lock (listed s.locks ino) (request f size owner));
    }
unfolding do_setlk
granted size_of s t ino owner f size u e h =
    elim (Option-cases (
      first_conflict (listed s.locks ino) (request f size owner).start (request f size owner).end
        f.l_type owner)) [
          | inr (c, k) ↦
              let busy : do_setlk size_of s ino f owner ≡ (FuseResult.err Errno.eagain, s) =
                rw (e, do_setlk, u, k) refl in
              absurd (ground (arith, busy, h))
          | inl k ↦
              let done : (do_setlk size_of s ino f owner).1 ≡ record s {
                locks =
                    assign s.locks ino (replace_lock (listed s.locks ino) (request f size owner));
              } =
                rw (e, do_setlk, u, k) refl in
              sym (ap (λ r. r.1) h) ∙ done
        ]

pub covers-do_setlk :
    (size_of : ℕ → Option ℕ) (s t : LockState) (ino owner : ℕ) (f : Flock) (size j o p : ℕ)
    → (f.l_type == f_unlck) ≡ false
    → size_of ino ≡ some size
    → do_setlk size_of s ino f owner ≡ (FuseResult.ok tt, t)
    → covers (listed t.locks j) o p ≡ (
        if j == ino && o == owner
        then any (λ l. holds_byte owner p l && apart l (request f size owner)) (listed s.locks ino)
          || holds_byte owner p (request f size owner)
        else covers (listed s.locks j) o p)
covers-do_setlk size_of s t ino owner f size j o p u e h =
    let new = request f size owner in
    let ls = listed s.locks ino in
    rw
      (
        granted size_of s t ino owner f size u e h,
        listed-assign s.locks ino j (replace_lock ls new),
      )
      (elim (Bool-cases (j == ino)) [
        | inr ne ↦ rw ne refl
        | inl eq ↦
            let same : listed s.locks j ≡ ls = ap (listed s.locks) (==→≡ j ino eq) in
            elim (Bool-cases (o == owner)) [
              | inl mine ↦ rw (eq, mine, covers-replace_lock_self ls new o p mine) refl
              | inr other ↦ rw (eq, other, covers-replace_lock_other ls new o p other, same) refl
            ]
      ])

-- Where an owner has one lock on an inode of `size` bytes and is granted another that has a byte
-- in common with it, the inode's bytes that it holds are those of the new lock alone: the rest
-- of the old lock is lost.
replaced_lock_lost :
    (size_of : ℕ → Option ℕ) (s t : LockState) (ino owner : ℕ) (f : Flock) (size p : ℕ)
    (old : PosixLock)
    → (f.l_type == f_unlck) ≡ false
    → size_of ino ≡ some size
    → do_setlk size_of s ino f owner ≡ (FuseResult.ok tt, t)
    → listed s.locks ino ≡ old ∷ []
    → apart old (request f size owner) ≡ false
    → covers (listed t.locks ino) owner p ≡ holds_byte owner p (request f size owner)
replaced_lock_lost size_of s t ino owner f size p old u e h one clash =
    covers-do_setlk size_of s t ino owner f size ino owner p u e h
    ∙ rw (==_refl ino, ==_refl owner, one, clash) (ground arith)
