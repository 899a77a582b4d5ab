-- ===== src/Btree/Xtree/Read/Total.antt =====
-- How many bytes a read through the extent tree of src/btree/xtree.rs answers.
use jfsfuse.Prelude.{
  ℕ, zero, suc, ◌+◌, ◌-◌, ◌*◌, ◌/◌, ◌%◌, ◌≤◌, ◌<◌, ◌≡◌, refl, min, inl, inr, false, tests, arith,
  Option, none, some, List, [], ◌∷◌, ltb, ◌==◌, Bool-cases, ge→ltb, length, take, drop, replicate,
  length-append, length-take, length-drop, length-replicate, Bool, All, if◌then◌else◌,
}
use jfsfuse.Types.XtRoot.{XtRoot}
use jfsfuse.Storage.Trait.{Storage}
use jfsfuse.Btree.Xtree.{map_blocks}
use jfsfuse.Btree.Xtree.Blocks.{total, total-map_blocks}
use jfsfuse.Btree.Xtree.Read.{
  Reading, ReadAnswer, block_bytes, then_read, copy_block, copy_found, copy_zeros, read_checked,
  read_blocks, read_extents, read_data_checked, read_data,
}

-- What the loops keep: no checks are left, the bytes read and those that are left are `len` in all,
-- and those that are left lie in `k` blocks.
record Ready (len k : ℕ) (p : Reading) : Type 0 where
  pub unchecked : p.signals ≡ []
  pub sum_ : length p.bytes + p.remaining ≡ len
  pub inside : p.buf_offset < block_bytes
  pub fits : p.remaining ≤ k * block_bytes - p.buf_offset

-- The answer is a state that is ready for `k` more blocks.
abbrev Reads : ℕ → ℕ → ReadAnswer Reading → Type 0
Reads len k (ReadAnswer.read p) = Ready len k p
Reads len k ReadAnswer.failed = ⊥
Reads len k ReadAnswer.interrupted = ⊥
Reads len k ReadAnswer.panicked = ⊥

then_read-Reads :
    (len j k : ℕ) (f : Reading → ReadAnswer Reading) (a : ReadAnswer Reading)
    → ((p : Reading) → Ready len j p → Reads len k (f p))
    → Reads len j a
    → Reads len k (then_read f a)
then_read-Reads len j k f (ReadAnswer.read p) h r = h p r
then_read-Reads len j k f ReadAnswer.failed h r = absurd r
then_read-Reads len j k f ReadAnswer.interrupted h r = absurd r
then_read-Reads len j k f ReadAnswer.panicked h r = absurd r

copy_block-Reads :
    (len k : ℕ) (d : List ℕ) (p : Reading)
    → length d ≡ block_bytes
    → Ready len (suc k) p
    → Reads len k (copy_block d p)
unfolding copy_block
copy_block-Reads len k d p sized r =
    let n = min (block_bytes - p.buf_offset) p.remaining in
    let long_ : ltb (length d) (p.buf_offset + n) ≡ false =
      ge→ltb (length d) (p.buf_offset + n) (omega (arith, sized, r.inside)) in
    let piece = take n (drop p.buf_offset d) in
    let copied : length piece ≡ n =
      omega (arith, sized, length-take n (drop p.buf_offset d), length-drop p.buf_offset d) in
    rw long_ (record {
      unchecked = r.unchecked;
      sum_ = omega (arith, length-append p.bytes piece, copied, r.sum_);
      inside = omega arith;
      fits = omega (arith, r.fits);
    })

copy_zeros-Ready :
    (len count k : ℕ) (p : Reading) → Ready len (count + k) p → Ready len k (copy_zeros count p)
copy_zeros-Ready len count k p r =
    let zeros = min (count * block_bytes) p.remaining in
    record {
      unchecked = r.unchecked;
      sum_ = omega (
        arith,
        length-append p.bytes (replicate zeros 0),
        length-replicate {A = ℕ} zeros 0,
        r.sum_,
      );
      inside = omega arith;
      fits = omega (arith, r.fits);
    }

Ready-resize :
    (len j k : ℕ) (p : Reading)
    → Ready len j p
    → p.remaining ≤ k * block_bytes - p.buf_offset
    → Ready len k p
Ready-resize len j k p r h = record {
  unchecked = r.unchecked;
  sum_ = r.sum_;
  inside = r.inside;
  fits = h;
}

copy_found-Reads :
    (len k : ℕ) (o : Option (List ℕ)) (d : List ℕ) (p : Reading)
    → o ≡ some d
    → length d ≡ block_bytes
    → Ready len (suc k) p
    → Reads len k (copy_found o p)
copy_found-Reads len k none d p e sized r = absurd (cc e)
copy_found-Reads len k (some c) d p e sized r =
    let same : c ≡ d = cc e in rw same (copy_block-Reads len k d p sized r)

-- A piece is a hole, or its blocks lie before block `size`.
abbrev pub IsInside : ℕ → ℕ × ℕ → Type 0
IsInside size (addr, count) = (if addr == 0 then 0 else addr + count) ≤ size

module _ {S : Type 0} (storage : Storage S) (s : S) where
  -- Every block before block `size` can be read, and has 4096 bytes.
  abbrev pub IsReadable : ℕ → Type 0
  IsReadable size =
      (b : ℕ)
      → b < size
      → (d : List ℕ) × (storage.read_block s b ≡ some d) × (length d ≡ block_bytes)

  module _ (size : ℕ) (whole : IsReadable size) where
    read_checked-Reads :
        (len k block : ℕ) (signals : List Bool) (p : Reading)
        → signals ≡ []
        → block < size
        → Ready len (suc k) p
        → Reads len k (read_checked storage s block signals p)
    read_checked-Reads len k block [] p e lt r =
        let (d, found, sized) = whole block lt in
        copy_found-Reads len k (storage.read_block s block) d p found sized r
    read_checked-Reads len k block (b ∷ signals) p e lt r = absurd (cc e)

    read_blocks-Reads :
        (len k count block : ℕ) (p : Reading)
        → block + count ≤ size
        → Ready len (count + k) p
        → Reads len k (read_blocks storage s count block p)
    unfolding read_blocks
    read_blocks-Reads len k zero block p le r =
        Ready-resize len (0 + k) k p r (omega (arith, r.fits))
    read_blocks-Reads len k (suc count) block p le r = elim (Bool-cases (p.remaining == 0)) [
      | inl y ↦ rw y (Ready-resize len (suc count + k) k p r (omega tests))
      | inr n ↦ rw n (
          then_read-Reads len (count + k) k (read_blocks storage s count (block + 1)) _
            (λ q. read_blocks-Reads len k count (block + 1) q (omega arith))
            (read_checked-Reads len (count + k) block p.signals p r.unchecked (omega arith)
              (Ready-resize len (suc count + k) (suc (count + k)) p r (omega (arith, r.fits)))))
    ]

    read_extents-Reads :
        (len : ℕ) (es : List (ℕ × ℕ)) (p : Reading)
        → All (IsInside size) es
        → Ready len (total es) p
        → Reads len 0 (read_extents storage s es p)
    unfolding read_extents total
    read_extents-Reads len [] p all r = r
    read_extents-Reads len ((addr, count) ∷ es) p all r =
        let q = copy_zeros count p in
        let zeroed = copy_zeros-Ready len count (total es) p r in
        elim (Bool-cases (addr == 0)) [
          | inl hole ↦ elim (Bool-cases (q.remaining == 0)) [
            | inl y ↦ rw (hole, y) (Ready-resize len (total es) 0 q zeroed (omega tests))
            | inr n ↦ rw (hole, n) (read_extents-Reads len es q all.1 zeroed)
          ]
          | inr m ↦
              let le : addr + count ≤ size = rw m at all.0 in
              rw m (
                then_read-Reads len (total es) 0 (read_extents storage s es) _
                  (λ q. read_extents-Reads len es q all.1)
                  (read_blocks-Reads len (total es) count addr p le r))
        ]

    -- the whole result, cut to the bytes asked for
    Reads-take :
        (len : ℕ) (a : ReadAnswer Reading)
        → Reads len 0 a
        → (d : List ℕ) × (then_read (λ p. ReadAnswer.read (take len p.bytes)) a ≡ ReadAnswer.read d)
          × (length d ≡ len)
    Reads-take len (ReadAnswer.read p) r =
        (take len p.bytes, refl, omega (arith, length-take len p.bytes, r.sum_, r.fits))
    Reads-take len ReadAnswer.failed r = absurd r
    Reads-take len ReadAnswer.interrupted r = absurd r
    Reads-take len ReadAnswer.panicked r = absurd r

  -- From a store whose blocks before block `size` can all be read and have 4096 bytes, and where the
  -- pieces that `map_blocks` finds for the range, but for holes, lie before block `size`: a read of any
  -- range answers exactly as many bytes as were asked for, and does not panic.
  pub length-read_data :
      (size : ℕ) (r : XtRoot) (offset len : ℕ)
      → IsReadable size
      → All (IsInside size) (
          map_blocks r
            (offset / block_bytes)
            ((len + offset % block_bytes + block_bytes - 1) / block_bytes))
      → (d : List ℕ) × (read_data storage s r offset len ≡ ReadAnswer.read d) × (length d ≡ len)
  unfolding read_data read_data_checked
  length-read_data size r offset len whole inside =
      let byte_offset = offset % block_bytes in
      let count = (len + byte_offset + block_bytes - 1) / block_bytes in
      let es = map_blocks r (offset / block_bytes) count in
      let pieces : total es ≡ count = total-map_blocks r (offset / block_bytes) count in
      let start : Reading = record {
        bytes = [];
        remaining = len;
        buf_offset = byte_offset;
        signals = [];
      } in
      let ready : Ready len (total es) start = record {
        unchecked = refl;
        sum_ = omega arith;
        inside = omega arith;
        fits = omega (arith, pieces);
      } in
      Reads-take size whole len _ (read_extents-Reads size whole len es start inside ready)
