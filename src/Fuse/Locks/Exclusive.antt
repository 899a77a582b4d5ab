-- ===== src/Fuse/Locks/Exclusive.antt =====
-- The locks that stand in the tables of src/fuse/mod.rs never conflict with each other.
use jfsfuse.Prelude.{
  ℕ, ◌≡◌, refl, sym, inl, inr, Bool, true, false, not, ◌&&◌, ◌||◌, Option, none, some, List, [],
  ◌∷◌, ◌++◌, arith, ◌==◌, if◌then◌else◌, Bool-cases, Option-cases, if_keeps, retain, any, All,
  All-append,
}
use jfsfuse.Fuse.Locks.{
  Errno, FuseResult, Flock, PosixLock, FlockLock, LockState, f_rdlck, f_wrlck, f_unlck,
  posix_conflict, flock_conflict, listed, alter, assign, resolve_flock, first_conflict,
  check_lock_conflict, release_owner_locks, replace_lock, apart, do_setlk, setlk,
  release_flock_owner, release_locks, flock, kind_of, lock_un, lock_sh, lock_ex,
}

abbrev pub Pairwise {ℓ} : {A : Type ℓ} → (A → A → Bool) → List A → Type 0
Pairwise r [] = Unit
Pairwise r (x ∷ xs) = All (λ y. r x y ≡ false) xs × Pairwise r xs

module _ {ℓ} {A : Type ℓ} where
  All-retain {κ} : (P : A → Type κ) (p : A → Bool) (xs : List A) → All P xs → All P (retain p xs)
  All-retain P p [] h = tt
  All-retain P p (x ∷ xs) h = elim (Bool-cases (p x)) [
    | inl e ↦ rw e (h.0, All-retain P p xs h.1)
    | inr e ↦ rw e (All-retain P p xs h.1)
  ]

  Pairwise-retain :
      (r : A → A → Bool) (p : A → Bool) (xs : List A) → Pairwise r xs → Pairwise r (retain p xs)
  Pairwise-retain r p [] h = tt
  Pairwise-retain r p (x ∷ xs) h = elim (Bool-cases (p x)) [
    | inl e ↦ rw e (All-retain (λ y. r x y ≡ false) p xs h.0, Pairwise-retain r p xs h.1)
    | inr e ↦ rw e (Pairwise-retain r p xs h.1)
  ]

  Pairwise-push :
      (r : A → A → Bool) (xs : List A) (y : A)
      → Pairwise r xs
      → All (λ x. r x y ≡ false) xs
      → Pairwise r (xs ++ (y ∷ []))
  Pairwise-push r [] y h k = (tt, tt)
  Pairwise-push r (x ∷ xs) y h k =
      (All-append (λ z. r x z ≡ false) xs (y ∷ []) h.0 (k.0, tt), Pairwise-push r xs y h.1 k.1)

-- No two POSIX locks of an inode conflict, and no two `flock` locks.
pub record IsExclusive (s : LockState) : Type 0 where
  pub posix : (ino : ℕ) → Pairwise posix_conflict (listed s.locks ino)
  pub bsd : (ino : ℕ) → Pairwise flock_conflict (listed s.flock_locks ino)

pub first_conflict-none :
    (ls : List PosixLock) (new : PosixLock)
    → first_conflict ls new.start new.end new.l_type new.owner ≡ none
    → All (λ l. posix_conflict l new ≡ false) ls
unfolding first_conflict
first_conflict-none [] new h = tt
first_conflict-none (e ∷ es) new h = (ground arith, first_conflict-none es new (ground arith))

any-none :
    (ls : List FlockLock) (new : FlockLock)
    → any (λ l. not (l.owner == new.owner) && flock_conflict l new) ls ≡ false
    → All (λ l. flock_conflict l new ≡ false) ls
any-none [] new h = tt
any-none (e ∷ es) new h = (ground arith, any-none es new (ground arith))

pub listed-assign {ℓ} :
    {A : Type ℓ} (m : ℕ → Option (List A)) (ino j : ℕ) (l : List A)
    → listed (assign m ino l) j ≡ (if j == ino then l else listed m j)
listed-assign m ino j l = go (j == ino)
  where
    go :
        (b : Bool)
        → elim (if b then some l else m j) [ none ↦ [] | some l ↦ l ]
          ≡ (if b then l else listed m j)
    go true = refl
    go false = refl

pub listed-alter {ℓ} :
    {A : Type ℓ} (m : ℕ → Option (List A)) (ino j : ℕ) (f : List A → List A)
    → f [] ≡ []
    → listed (alter m ino f) j ≡ (if j == ino then f (listed m j) else listed m j)
listed-alter {A} m ino j f e = go (m j) (j == ino)
  where
    go :
        (o : Option (List A)) (b : Bool)
        → elim (elim o as (λ x. Option (List A)) [
          | none ↦ none
          | some l ↦ some (if b then f l else l)
        ])
            as (λ x. List A) [ none ↦ [] | some l ↦ l ]
          ≡ (if b
              then f (elim o as (λ x. List A) [ none ↦ [] | some l ↦ l ])
              else elim o as (λ x. List A) [ none ↦ [] | some l ↦ l ])
    go none true = sym e
    go none false = refl
    go (some l) true = refl
    go (some l) false = refl

-- The tables change by a retained list, or by a list that `replace_lock` or `flock` builds.
kept_posix :
    (s : LockState) (ino owner : ℕ) → IsExclusive s → IsExclusive (release_owner_locks s ino owner)
unfolding release_owner_locks
kept_posix s ino owner x = record {
  posix = λ j.
      rw (listed-alter s.locks ino j (retain (λ (l : PosixLock). not (l.owner == owner))) refl) (
        if_keeps (j == ino) (Pairwise posix_conflict)
          (Pairwise-retain posix_conflict (λ (l : PosixLock). not (l.owner == owner))
            (listed s.locks j) (x.posix j))
          (x.posix j));
  bsd = x.bsd;
}

kept_bsd :
    (s : LockState) (ino owner : ℕ) → IsExclusive s → IsExclusive (release_flock_owner s ino owner)
unfolding release_flock_owner
kept_bsd s ino owner x = record {
  posix = x.posix;
  bsd = λ j.
      rw
        (listed-alter s.flock_locks ino j (retain (λ (l : FlockLock). not (l.owner == owner))) refl)
        (if_keeps (j == ino) (Pairwise flock_conflict)
          (Pairwise-retain flock_conflict (λ (l : FlockLock). not (l.owner == owner))
            (listed s.flock_locks j) (x.bsd j))
          (x.bsd j));
}

replaced :
    (ls : List PosixLock) (new : PosixLock)
    → Pairwise posix_conflict ls
    → first_conflict ls new.start new.end new.l_type new.owner ≡ none
    → Pairwise posix_conflict (replace_lock ls new)
replaced ls new h e =
    let p : PosixLock → Bool = λ l. not (l.owner == new.owner) || apart l new in
    Pairwise-push posix_conflict (retain p ls) new (Pairwise-retain posix_conflict p ls h)
      (All-retain (λ l. posix_conflict l new ≡ false) p ls (first_conflict-none ls new e))

assigned {ℓ} :
    {A : Type ℓ} (m : ℕ → Option (List A)) (ino : ℕ) (r : A → A → Bool) (l : List A)
    → Pairwise r l
    → ((j : ℕ) → Pairwise r (listed m j))
    → (j : ℕ) → Pairwise r (listed (assign m ino l) j)
assigned m ino r l h k j = rw (listed-assign m ino j l) (if_keeps (j == ino) (Pairwise r) h (k j))

abbrev Keeps : FuseResult (Unit {0}) × LockState → Type 0
Keeps r = IsExclusive r.1

-- one guard of `setlk` or `flock`: the answers under it and past it
guarded :
    (b : Bool) (x y : FuseResult (Unit {0}) × LockState)
    → Keeps x
    → Keeps y
    → Keeps (if b then x else y)
guarded true x y h k = h
guarded false x y h k = k

-- Setting or releasing a POSIX lock, with any answer.
pub do_setlk-IsExclusive :
    (size_of : ℕ → Option ℕ) (s : LockState) (ino owner : ℕ) (f : Flock)
    → IsExclusive s
    → IsExclusive (do_setlk size_of s ino f owner).1
unfolding do_setlk
do_setlk-IsExclusive size_of s ino owner f x = elim (Option-cases (size_of ino)) [
  | inl e ↦ rw (e, do_setlk) x
  | inr (size, e) ↦
      let r = resolve_flock f size in
      elim (Bool-cases (f.l_type == f_unlck)) [
        | inl u ↦ rw (e, do_setlk, u) (kept_posix s ino owner x)
        | inr u ↦ elim (Option-cases (check_lock_conflict s ino r.0 r.1 f.l_type owner)) [
          | inr (c, k) ↦ rw (e, do_setlk, u, k) x
          | inl k ↦
              rw (e, do_setlk, u, k)
                (record {
                  posix = λ j.
                      assigned s.locks ino posix_conflict
                        (replace_lock (listed s.locks ino) (new r))
                        (replaced (listed s.locks ino) (new r) (x.posix ino) k) x.posix j;
                  bsd = x.bsd;
                })
        ]
      ]
]
  where
    new : ℕ × ℕ → PosixLock
    new r = record { l_type = f.l_type; start = r.0; end = r.1; owner = owner }

release_locks-IsExclusive :
    (s : LockState) (ino owner : ℕ) → IsExclusive s → IsExclusive (release_locks s ino owner)
unfolding release_locks
release_locks-IsExclusive s ino owner x =
    kept_bsd (release_owner_locks s ino owner) ino owner (kept_posix s ino owner x)

setlk-IsExclusive :
    (size_of : ℕ → Option ℕ) (s : LockState) (ino owner : ℕ) (f : Flock)
    → IsExclusive s
    → IsExclusive (setlk size_of s ino f owner).1
unfolding setlk
setlk-IsExclusive size_of s ino owner f x =
    let bad = not (f.l_type == f_unlck) && not (f.l_type == f_rdlck) && not (f.l_type == f_wrlck) in
    let set_ = do_setlk size_of s ino f owner in
    let checked = if bad then (FuseResult.err Errno.einval, s) else set_ in
    guarded (not s.writable) (FuseResult.err Errno.erofs, s) checked x
      (guarded bad (FuseResult.err Errno.einval, s) set_ x
        (do_setlk-IsExclusive size_of s ino owner f x))

flock-IsExclusive :
    (s : LockState) (ino operation owner : ℕ)
    → IsExclusive s
    → IsExclusive (flock s ino operation owner).1
unfolding flock
flock-IsExclusive s ino operation owner x = elim (Bool-cases (not s.writable)) [
  | inl e ↦ rw (e, flock) x
  | inr e ↦ elim (Bool-cases (kind_of operation == lock_un)) [
    | inl u ↦ rw (e, flock, u) (kept_bsd s ino owner x)
    | inr u ↦
        elim (Bool-cases
          (not (kind_of operation == lock_sh) && not (kind_of operation == lock_ex))) [
            | inl b ↦ rw (e, flock, u, b) x
            | inr b ↦
                elim (Bool-cases (
                  any (λ (l : FlockLock). not (l.owner == owner) && flock_conflict l new)
                    (listed s.flock_locks ino))) [
                      | inl c ↦ rw (e, flock, u, b, c) x
                      | inr c ↦
                          rw (e, flock, u, b, c)
                            (record {
                              posix = x.posix;
                              bsd =
                                  assigned s.flock_locks ino flock_conflict
                                    (retain mine (listed s.flock_locks ino) ++ (new ∷ []))
                                    (Pairwise-push flock_conflict
                                      (retain mine (listed s.flock_locks ino)) new
                                      (Pairwise-retain flock_conflict mine
                                        (listed s.flock_locks ino) (x.bsd ino))
                                      (All-retain (λ l. flock_conflict l new ≡ false) mine
                                        (listed s.flock_locks ino)
                                        (any-none (listed s.flock_locks ino) new c)))
                                    x.bsd;
                            })
                    ]
          ]
  ]
]
  where
    new : FlockLock
    new = record { kind = kind_of operation; owner = owner }

    mine : FlockLock → Bool
    mine l = not (l.owner == owner)

-- One request on the lock tables, whatever its answer; the file sizes may change between requests.
pub data LockStep : LockState → LockState → Type 0 where
  sets :
      {s : LockState} (size_of : ℕ → Option ℕ) (ino owner : ℕ) (f : Flock)
      → LockStep s (setlk size_of s ino f owner).1
  flocks : {s : LockState} (ino operation owner : ℕ) → LockStep s (flock s ino operation owner).1
  releases : {s : LockState} (ino owner : ℕ) → LockStep s (release_locks s ino owner)

-- From empty tables, by any requests in any order.
pub data Reached (writable : Bool) : LockState → Type 0 where
  empty :
      Reached writable
        (record { writable = writable; locks = λ ino. none; flock_locks = λ ino. none })
  then_ : {s t : LockState} → Reached writable s → LockStep s t → Reached writable t

-- In every state that requests of any owners on any inodes lead to from empty tables, no two
-- POSIX locks of an inode conflict and no two `flock` locks of an inode conflict.
pub Reached-IsExclusive : (w : Bool) (s : LockState) → Reached w s → IsExclusive s
Reached-IsExclusive w s Reached.empty = record { posix = λ j. tt; bsd = λ j. tt }
Reached-IsExclusive w t (Reached.then_ {s} r (LockStep.sets size_of ino owner f)) =
    setlk-IsExclusive size_of s ino owner f (Reached-IsExclusive w s r)
Reached-IsExclusive w t (Reached.then_ {s} r (LockStep.flocks ino operation owner)) =
    flock-IsExclusive s ino operation owner (Reached-IsExclusive w s r)
Reached-IsExclusive w t (Reached.then_ {s} r (LockStep.releases ino owner)) =
    release_locks-IsExclusive s ino owner (Reached-IsExclusive w s r)
