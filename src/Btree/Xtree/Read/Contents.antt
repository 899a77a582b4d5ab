-- ===== src/Btree/Xtree/Read/Contents.antt =====
-- What a read through the extent tree of src/btree/xtree.rs answers, against the blocks that it maps.
use jfsfuse.Prelude.{
  ℕ, zero, suc, ◌+◌, ◌-◌, ◌*◌, ◌/◌, ◌%◌, ◌≡◌, refl, sym, ap, ◌∙◌, min, inl, inr, false, tests,
  arith, Bool, Option, none, some, List, [], ◌∷◌, ◌++◌, ltb, ◌==◌, if◌then◌else◌, Bool-cases,
  ge→ltb, length, take, replicate, length-replicate, All, ◌≤◌, ◌<◌,
}
use mathlib.Core.List.{append_assoc}
use jfsfuse.Types.XtRoot.{XtRoot}
use jfsfuse.Storage.Trait.{Storage}
use jfsfuse.Btree.Xtree.{map_blocks}
use jfsfuse.Btree.Xtree.Read.Total.{IsInside}
use jfsfuse.Btree.Xtree.Read.{
  Reading, ReadAnswer, block_bytes, then_read, copy_block, copy_found, copy_zeros, read_checked,
  read_blocks, read_extents, read_data_checked, read_data,
}

take_split : (n : ℕ) (x y : List ℕ) → take n (x ++ y) ≡ take n x ++ take (n - length x) y
take_split zero [] y = refl
take_split zero (a ∷ x) y = let none_ : 0 - suc (length x) ≡ 0 = omega arith in rw none_ refl
take_split (suc n) [] y = let all : suc n - 0 ≡ suc n = omega arith in rw all refl
take_split (suc n) (a ∷ x) y =
    let left : suc n - suc (length x) ≡ n - length x = omega arith in
    rw left (ap (◌∷◌ a) (take_split n x y))

take-min : (n : ℕ) (x : List ℕ) → take (min (length x) n) x ≡ take n x
take-min zero x = let least : min (length x) 0 ≡ 0 = omega arith in rw least refl
take-min (suc n) [] = let least : min 0 (suc n) ≡ 0 = omega arith in rw least refl
take-min (suc n) (a ∷ x) =
    let least : min (suc (length x)) (suc n) ≡ suc (min (length x) n) = omega arith in
    rw least (ap (◌∷◌ a) (take-min n x))

abbrev zeros : ℕ → List ℕ
zeros m = replicate m 0

take-zeros : (n m : ℕ) → take n (zeros m) ≡ zeros (min m n)
take-zeros zero m = let least : min m 0 ≡ 0 = omega arith in rw least refl
take-zeros (suc n) zero = let least : min 0 (suc n) ≡ 0 = omega arith in rw least refl
take-zeros (suc n) (suc m) =
    let least : min (suc m) (suc n) ≡ suc (min m n) = omega arith in
    rw least (ap (◌∷◌ 0) (take-zeros n m))

-- The bytes of `count` blocks from `block` on, where `data_` has those of each block.
unfoldable pub block_image : (ℕ → List ℕ) → ℕ → ℕ → List ℕ
block_image data_ zero block = []
block_image data_ (suc count) block = data_ block ++ block_image data_ count (block + 1)

-- The bytes that pieces of a file stand for: a hole has zeros.
unfoldable pub image : (ℕ → List ℕ) → List (ℕ × ℕ) → List ℕ
unfolding block_image
image data_ [] = []
image data_ ((addr, count) ∷ es) =
    (if addr == 0 then zeros (count * block_bytes) else block_image data_ count addr)
    ++ image data_ es

-- The bytes read, and those that are left of the image, are `out`.
record Ready (out rest : List ℕ) (p : Reading) : Type 0 where
  pub unchecked : p.signals ≡ []
  pub aligned : p.buf_offset ≡ 0
  pub bytes_ : p.bytes ++ take p.remaining rest ≡ out

abbrev Reads : List ℕ → List ℕ → ReadAnswer Reading → Type 0
Reads out rest (ReadAnswer.read p) = Ready out rest p
Reads out rest ReadAnswer.failed = ⊥
Reads out rest ReadAnswer.interrupted = ⊥
Reads out rest ReadAnswer.panicked = ⊥

then_read-Reads :
    (out x y : List ℕ) (f : Reading → ReadAnswer Reading) (a : ReadAnswer Reading)
    → ((p : Reading) → Ready out x p → Reads out y (f p))
    → Reads out x a
    → Reads out y (then_read f a)
then_read-Reads out x y f (ReadAnswer.read p) h r = h p r
then_read-Reads out x y f ReadAnswer.failed h r = absurd r
then_read-Reads out x y f ReadAnswer.interrupted h r = absurd r
then_read-Reads out x y f ReadAnswer.panicked h r = absurd r

copy_block-Reads :
    (out d rest : List ℕ) (p : Reading)
    → length d ≡ block_bytes
    → Ready out (d ++ rest) p
    → Reads out rest (copy_block d p)
unfolding copy_block
copy_block-Reads out d rest p sized r =
    let n = min (block_bytes - 0) p.remaining in
    let long_ : ltb (length d) (0 + n) ≡ false = ge→ltb (length d) (0 + n) (omega (arith, sized)) in
    let same : n ≡ min (length d) p.remaining = omega (arith, sized) in
    let left : p.remaining - n ≡ p.remaining - length d = omega (arith, sized) in
    rw (r.aligned, long_)
      (record {
        unchecked = r.unchecked;
        aligned = refl;
        bytes_ =
            rw (left, same, take-min p.remaining d)
              (append_assoc p.bytes (take p.remaining d) (take (p.remaining - length d) rest)
                ∙ ap (λ x. p.bytes ++ x) (sym (take_split p.remaining d rest))
                ∙ r.bytes_);
      })

copy_found-Reads :
    (out : List ℕ) (o : Option (List ℕ)) (d rest : List ℕ) (p : Reading)
    → o ≡ some d
    → length d ≡ block_bytes
    → Ready out (d ++ rest) p
    → Reads out rest (copy_found o p)
copy_found-Reads out none d rest p e sized r = absurd (cc e)
copy_found-Reads out (some c) d rest p e sized r =
    let same : c ≡ d = cc e in rw same (copy_block-Reads out d rest p sized r)

copy_zeros-Ready :
    (out : List ℕ) (count : ℕ) (rest : List ℕ) (p : Reading)
    → Ready out (zeros (count * block_bytes) ++ rest) p
    → Ready out rest (copy_zeros count p)
copy_zeros-Ready out count rest p r =
    let m = count * block_bytes in
    let left : p.remaining - min m p.remaining ≡ p.remaining - length (zeros m) =
      omega (arith, length-replicate {A = ℕ} m 0) in
    record {
      unchecked = r.unchecked;
      aligned = refl;
      bytes_ =
          rw (left, sym (take-zeros p.remaining m))
            (append_assoc p.bytes (take p.remaining (zeros m))
                (take (p.remaining - length (zeros m)) rest)
              ∙ ap (λ x. p.bytes ++ x) (sym (take_split p.remaining (zeros m) rest))
              ∙ r.bytes_);
    }

Ready-along : (out x y : List ℕ) (p : Reading) → x ≡ y → Ready out x p → Ready out y p
Ready-along out x y p e r = record {
  unchecked = r.unchecked;
  aligned = r.aligned;
  bytes_ = ap (λ z. p.bytes ++ take p.remaining z) (sym e) ∙ r.bytes_;
}

-- Where no bytes are left, the rest does not matter.
Ready-finished : (out x y : List ℕ) (p : Reading) → p.remaining ≡ 0 → Ready out x p → Ready out y p
Ready-finished out x y p e r = record {
  unchecked = r.unchecked;
  aligned = r.aligned;
  bytes_ = ap (λ k. p.bytes ++ take k y) e ∙ sym (ap (λ k. p.bytes ++ take k x) e) ∙ r.bytes_;
}

take_none : (n : ℕ) → take {A = ℕ} n [] ≡ []
take_none zero = refl
take_none (suc n) = refl

append_none : (x : List ℕ) → x ++ [] ≡ x
append_none [] = refl
append_none (a ∷ x) = ap (◌∷◌ a) (append_none x)

take_again : (n : ℕ) (x : List ℕ) → take n (take n x) ≡ take n x
take_again zero x = refl
take_again (suc n) [] = refl
take_again (suc n) (a ∷ x) = ap (◌∷◌ a) (take_again n x)

module _ {S : Type 0} (storage : Storage S) (s : S) (data_ : ℕ → List ℕ) where
  -- Every block before block `size` reads as its 4096 bytes.
  abbrev pub IsStored : ℕ → Type 0
  IsStored size =
      (b : ℕ)
      → b < size
      → (storage.read_block s b ≡ some (data_ b)) × (length (data_ b) ≡ block_bytes)

  module _ (size : ℕ) (stored : IsStored size) where
    read_checked-Reads :
        (out : List ℕ) (block : ℕ) (rest : List ℕ) (signals : List Bool) (p : Reading)
        → signals ≡ []
        → block < size
        → Ready out (data_ block ++ rest) p
        → Reads out rest (read_checked storage s block signals p)
    read_checked-Reads out block rest [] p e lt r =
        let (found, sized) = stored block lt in
        copy_found-Reads out (storage.read_block s block) (data_ block) rest p found sized r
    read_checked-Reads out block rest (b ∷ signals) p e lt r = absurd (cc e)

    read_blocks-Reads :
        (out : List ℕ) (count block : ℕ) (rest : List ℕ) (p : Reading)
        → block + count ≤ size
        → Ready out (block_image data_ count block ++ rest) p
        → Reads out rest (read_blocks storage s count block p)
    unfolding read_blocks block_image
    read_blocks-Reads out zero block rest p le r = r
    read_blocks-Reads out (suc count) block rest p le r =
        let more = block_image data_ count (block + 1) in
        elim (Bool-cases (p.remaining == 0)) [
          | inl y ↦ rw y (Ready-finished out ((data_ block ++ more) ++ rest) rest p (omega tests) r)
          | inr n ↦ rw n (
              then_read-Reads out (more ++ rest) rest (read_blocks storage s count (block + 1)) _
                (λ q. read_blocks-Reads out count (block + 1) rest q (omega arith))
                (read_checked-Reads out block (more ++ rest) p.signals p r.unchecked (omega arith)
                  (Ready-along out _ _ p (append_assoc (data_ block) more rest) r)))
        ]

    read_extents-Reads :
        (out : List ℕ) (es : List (ℕ × ℕ)) (p : Reading)
        → All (IsInside size) es
        → Ready out (image data_ es) p
        → Reads out [] (read_extents storage s es p)
    unfolding read_extents image
    read_extents-Reads out [] p all r = r
    read_extents-Reads out ((addr, count) ∷ es) p all r =
        let q = copy_zeros count p in
        let rest = image data_ es in
        elim (Bool-cases (addr == 0)) [
          | inl hole ↦
              let here : image data_ ((addr, count) ∷ es) ≡ zeros (count * block_bytes) ++ rest =
                rw hole refl in
              let zeroed = copy_zeros-Ready out count rest p (Ready-along out _ _ p here r) in
              elim (Bool-cases (q.remaining == 0)) [
                | inl y ↦ rw (hole, y) (Ready-finished out rest [] q (omega tests) zeroed)
                | inr n ↦ rw (hole, n) (read_extents-Reads out es q all.1 zeroed)
              ]
          | inr m ↦
              let here : image data_ ((addr, count) ∷ es) ≡ block_image data_ count addr ++ rest =
                rw m refl in
              let le : addr + count ≤ size = rw m at all.0 in
              rw m (
                then_read-Reads out rest [] (read_extents storage s es) _
                  (λ q. read_extents-Reads out es q all.1)
                  (read_blocks-Reads out count addr rest p le (Ready-along out _ _ p here r)))
        ]

    Reads-take :
        (len : ℕ) (whole : List ℕ) (a : ReadAnswer Reading)
        → Reads (take len whole) [] a
        → then_read (λ p. ReadAnswer.read (take len p.bytes)) a ≡ ReadAnswer.read (take len whole)
    Reads-take len whole (ReadAnswer.read p) r =
        let all : p.bytes ≡ take len whole =
          sym (append_none p.bytes)
          ∙ ap (λ x. p.bytes ++ x) (sym (take_none p.remaining))
          ∙ r.bytes_ in
        ap ReadAnswer.read (ap (take len) all ∙ take_again len whole)
    Reads-take len whole ReadAnswer.failed r = absurd r
    Reads-take len whole ReadAnswer.interrupted r = absurd r
    Reads-take len whole ReadAnswer.panicked r = absurd r

  -- From a store whose blocks before block `size` can all be read and have 4096 bytes, and where the
  -- pieces that `map_blocks` finds for the range, but for holes, lie before block `size`: a read that
  -- begins at a multiple of 4096 answers the bytes of these pieces, one after the other, with zeros for
  -- a hole, cut to the bytes asked for.
  pub read_data-image :
      (size : ℕ) (r : XtRoot) (offset len : ℕ)
      → IsStored size
      → offset % block_bytes ≡ 0
      → All
          (IsInside size)
          (map_blocks r (offset / block_bytes) ((len + block_bytes - 1) / block_bytes))
      → read_data storage s r offset len
        ≡ ReadAnswer.read (
            take len (
              image data_
                (map_blocks r (offset / block_bytes) ((len + block_bytes - 1) / block_bytes))))
  unfolding read_data read_data_checked
  read_data-image size r offset len stored aligned inside =
      let es = map_blocks r (offset / block_bytes) ((len + block_bytes - 1) / block_bytes) in
      let start : Reading = record { bytes = []; remaining = len; buf_offset = 0; signals = [] } in
      let ready : Ready (take len (image data_ es)) (image data_ es) start = record {
        unchecked = refl;
        aligned = refl;
        bytes_ = refl;
      } in
      let count : len + 0 + block_bytes - 1 ≡ len + block_bytes - 1 = omega arith in
      rw (aligned, count)
        (Reads-take size stored len (image data_ es) _
          (read_extents-Reads size stored (take len (image data_ es)) es start inside ready))
