-- ===== src/Btree/Xtree/Range/Kept.antt =====
-- What a scan does to the block map follows from what it does to each entry.
use jfsfuse.Prelude.{
  ℕ, ◌+◌, ◌-◌, ◌≤◌, min, ◌≡◌, refl, Bool, none, List, [], ◌∷◌, arith, if◌then◌else◌, length, drop,
  retain, any, All, length-append, length-take, any-append,
}
use jfsfuse.Types.Xad.{Xad}
use jfsfuse.Types.XtRoot.{XtRoot}
use jfsfuse.Btree.Xtree.{live}
use jfsfuse.Btree.Xtree.Mapping.{block_in, block_in-append}
use jfsfuse.Btree.Xtree.Range.{scan}

-- On the blocks of `keep` each entry is kept as it was, and on the others it is gone.
pub block_in-scan {ℓ} :
    {A : Type ℓ} (one : Xad → List Xad × List A) (keep : Bool) (b : ℕ) (P : Xad → Type 0)
    → ((x : Xad) → P x → block_in b (one x).0 ≡ (if keep then block_in b (x ∷ []) else none))
    → (xs : List Xad) → All P xs
    → block_in b (scan one xs).0 ≡ (if keep then block_in b xs else none)
unfolding scan block_in
block_in-scan one keep b P each [] h = ground arith
block_in-scan one keep b P each (x ∷ xs) h =
    rw (block_in-append b (one x).0 (scan one xs).0)
      (ground (arith, each x h.0, block_in-scan one keep b P each xs h.1))

pub length-scan-le {ℓ} :
    {A : Type ℓ} (one : Xad → List Xad × List A)
    → ((x : Xad) → length (one x).0 ≤ 1)
    → (xs : List Xad) → length (scan one xs).0 ≤ length xs
unfolding scan
length-scan-le one each [] = omega arith
length-scan-le one each (x ∷ xs) =
    omega (arith, each x, length-scan-le one each xs, length-append (one x).0 (scan one xs).0)

-- What the entries give back, one by one, is what the scan gives back.
pub any-scan {ℓ} :
    {A : Type ℓ} (one : Xad → List Xad × List A) (test : A → Bool) (part : Xad → Bool)
    (P : Xad → Type 0)
    → ((x : Xad) → P x → any test (one x).1 ≡ part x)
    → (xs : List Xad) → All P xs
    → any test (scan one xs).1 ≡ any part xs
unfolding scan
any-scan one test part P each [] h = refl
any-scan one test part P each (x ∷ xs) h =
    rw (any-append test (one x).1 (scan one xs).1)
      (ground (arith, each x h.0, any-scan one test part P each xs h.1))

pub All-trivial : (xs : List Xad) → All (λ _. Unit {0}) xs
All-trivial [] = tt
All-trivial (x ∷ xs) = (tt, All-trivial xs)

pub length-live-le : (r : XtRoot) → length (live r) ≤ 16
length-live-le r = omega (arith, length-take (min (r.header.nextindex) 18 - 2) (drop 2 r.xad))

pub length-scan_extra-le {ℓ} :
    {A : Type ℓ} (one : Xad → List Xad × List A) (extra : Xad → Bool)
    → ((x : Xad) → length (one x).0 ≤ 1 + (if extra x then 1 else 0))
    → (xs : List Xad) → length (scan one xs).0 ≤ length xs + length (retain extra xs)
unfolding scan
length-scan_extra-le one extra each [] = omega arith
length-scan_extra-le one extra each (x ∷ xs) =
    ground (
      arith,
      each x,
      length-scan_extra-le one extra each xs,
      length-append (one x).0 (scan one xs).0,
    )
