-- ===== src/Btree/Xtree/Range/Punch.antt =====
-- `punch_extents` makes a hole in the block map and gives back the blocks of the hole. The branch
-- that splits an entry in two gives the right part a wrong address.
use jfsfuse.Prelude.{
  ℕ, ◌+◌, ◌-◌, ◌≤◌, ◌<◌, ◌≡◌, ◌∙◌, ◌≢◌, true, false, not, ◌&&◌, none, some, List, [], ◌∷◌, arith,
  ltb, leb, if◌then◌else◌, length, any, All, any-append, as_u32,
}
use jfsfuse.Types.Xad
use jfsfuse.Types.Xad.{Xad}
use jfsfuse.Types.Xad.Fields as XadFields
use jfsfuse.Types.XtRoot.{XtRoot, HasSlots}
use jfsfuse.Btree.Xtree.{live}
use jfsfuse.Btree.Xtree.Mapping.{
  block_in, block_of, IsBounded, in_range, holds_between, block_in-append,
}
use jfsfuse.Btree.Xtree.Range.{Place, scan, place, punch_at, punch_one, punch_extents}
use jfsfuse.Btree.Xtree.Range.Places.{HasPlace, place-HasPlace, spans, Fits}
use jfsfuse.Btree.Xtree.Range.WriteBack.{live-write_back}
use jfsfuse.Btree.Xtree.Range.Kept.{block_in-scan, any-scan, length-scan_extra-le}

module _ (start end : ℕ) (ordered : start ≤ end) (x : Xad) (bounded : IsBounded x) where
  abbrev left : ℕ
  left = as_u32 (start - Xad.offset x)

  -- One branch of the code that does not split the entry.
  punch_at-kept :
      (b : ℕ) (p : Place)
      → HasPlace p start end x
      → spans start end x ≡ false
      → block_in b (punch_at p start end x).0
        ≡ (if not (leb start b && ltb b end) then block_in b (x ∷ []) else none)
  unfolding punch_at block_in
  punch_at-kept b Place.empty h ns = ground arith
  punch_at-kept b Place.outside h ns = ground arith
  punch_at-kept b Place.within h ns = ground arith
  punch_at-kept b Place.spanning h ns = ground arith
  punch_at-kept b Place.head_kept h ns =
      ground (arith, XadFields.length_of-lt x, XadFields.shortened left x)
  punch_at-kept b Place.tail_kept h ns = ground (
    arith,
    XadFields.length_of-lt x,
    XadFields.written end (as_u32 (Xad.offset x + Xad.length_of x - end))
        (Xad.address x + as_u32 (end - Xad.offset x)) x,
  )

  -- Every branch gives back the right blocks.
  punch_at-freed :
      (b : ℕ) (p : Place)
      → HasPlace p start end x
      → any (in_range b) (punch_at p start end x).1 ≡ holds_between start end b x
  unfolding punch_at
  punch_at-freed b Place.empty h = ground arith
  punch_at-freed b Place.outside h = ground arith
  punch_at-freed b Place.within h = ground arith
  punch_at-freed b Place.spanning h = ground (arith, XadFields.length_of-lt x)
  punch_at-freed b Place.head_kept h = ground (arith, XadFields.length_of-lt x)
  punch_at-freed b Place.tail_kept h = ground (arith, XadFields.length_of-lt x)

length-punch_one-le :
    (start end : ℕ) (x : Xad)
    → length (punch_one start end x).0 ≤ 1 + (if spans start end x then 1 else 0)
unfolding punch_one punch_at
length-punch_one-le start end x = ground arith

punch_one-kept :
    (start end b : ℕ) (x : Xad)
    → start ≤ end
    → IsBounded x × (spans start end x ≡ false)
    → block_in b (punch_one start end x).0
      ≡ (if not (leb start b && ltb b end) then block_in b (x ∷ []) else none)
unfolding punch_one
punch_one-kept start end b x o h =
    punch_at-kept start end o x h.0 b (place start end x) (place-HasPlace start end x) h.1

punch_one-freed :
    (start end p : ℕ) (x : Xad)
    → start ≤ end
    → IsBounded x
    → any (in_range p) (punch_one start end x).1 ≡ holds_between start end p x
unfolding punch_one
punch_one-freed start end p x o h =
    punch_at-freed start end o x h p (place start end x) (place-HasPlace start end x)

place_of_spans :
    (start end : ℕ) (x : Xad)
    → start ≤ end
    → spans start end x ≡ true
    → place start end x ≡ Place.spanning
unfolding place
place_of_spans start end x o sp = ground arith

-- What the branch that splits an entry in two does behind the hole.
punch_one_spanning :
    (start end k : ℕ) (x : Xad)
    → start ≤ end
    → IsBounded x
    → spans start end x ≡ true
    → k < end - start
    → end + k < Xad.offset x + Xad.length_of x
    → (block_in (end + k) (punch_one start end x).0
        ≡ some (Xad.address x + (start + k - Xad.offset x)))
      × (any (in_range (Xad.address x + (start + k - Xad.offset x))) (punch_one start end x).1
          ≡ true)
unfolding punch_one punch_at block_in
punch_one_spanning start end k x o bx sp hk hb = rw (place_of_spans start end x o sp) (
  ground (
    arith,
    XadFields.length_of-lt x,
    XadFields.shortened (as_u32 (start - Xad.offset x)) x,
    XadFields.written end (as_u32 (Xad.offset x + Xad.length_of x - end))
        (Xad.address x + as_u32 (start - Xad.offset x)) x,
  ),
  ground (arith, XadFields.length_of-lt x),
)

spans_bounds :
    (start end : ℕ) (x : Xad)
    → spans start end x ≡ true
    → (Xad.offset x < start) × (end < Xad.offset x + Xad.length_of x)
spans_bounds start end x h = ground arith

block_in_head :
    (b : ℕ) (x : Xad) (xs : List Xad)
    → Xad.offset x ≤ b
    → b < Xad.offset x + Xad.length_of x
    → block_in b (x ∷ xs) ≡ some (Xad.address x + (b - Xad.offset x))
unfolding block_in
block_in_head b x xs h k = ground arith

module _ (r : XtRoot) (start end : ℕ) (slots : HasSlots r) (ordered : start ≤ end)
    (fits : Fits start end r) where
  live-punch_extents : live (punch_extents r start end).0 ≡ (scan (punch_one start end) (live r)).0
  unfolding punch_extents
  live-punch_extents = live-write_back (scan (punch_one start end) (live r)).0 r slots (
      omega (
        arith,
        length-scan_extra-le (punch_one start end) (spans start end) (length-punch_one-le start end)
            (live r),
      ))

  -- Punching `[start, end)` with `start ≤ end` out of a root with all its slots, with room in
  -- them for the entries that are split in two, where every live entry has 40-bit ends and none
  -- reaches out of the range at both ends: outside the range every block stays mapped as it was,
  -- inside no block is mapped.
  pub block_of-punch_extents :
      (b : ℕ)
      → All (λ x. IsBounded x × (spans start end x ≡ false)) (live r)
      → block_of (punch_extents r start end).0 b
        ≡ (if leb start b && ltb b end then none else block_of r b)
  unfolding block_of
  block_of-punch_extents b h = rw live-punch_extents (
      block_in-scan (punch_one start end) (not (leb start b && ltb b end)) b
        (λ x. IsBounded x × (spans start end x ≡ false))
        (λ x hx. punch_one-kept start end b x ordered hx) (live r) h
      ∙ ground arith)

  freed_head :
      (x : Xad) (xs : List Xad)
      → live r ≡ x ∷ xs
      → (p : ℕ) → any (in_range p) (punch_one start end x).1 ≡ true
      → any (in_range p) (punch_extents r start end).1 ≡ true
  unfolding punch_extents scan
  freed_head x xs e p h = rw e (
      any-append (in_range p) (punch_one start end x).1 (scan (punch_one start end) xs).1
      ∙ ground arith)

  -- The first live entry of a root with all its slots, and room in them for the entries that are
  -- split, has 40-bit ends and reaches out of `[start, end)`, `start ≤ end`, at both ends. After
  -- the punch the blocks behind the hole, as far as the hole is long and the entry reaches, are
  -- mapped to the blocks that the hole itself had, which are given back as free, and not to
  -- those they had before.
  pub punch_extents-aliases :
      (x : Xad) (xs : List Xad) (k : ℕ)
      → live r ≡ x ∷ xs
      → IsBounded x
      → spans start end x ≡ true
      → k < end - start
      → end + k < Xad.offset x + Xad.length_of x
      → (block_of (punch_extents r start end).0 (end + k) ≡ block_of r (start + k))
        × (block_of r (end + k) ≢ block_of r (start + k))
        × (any (in_range (Xad.address x + (start + k - Xad.offset x))) (punch_extents r start end).1
            ≡ true)
        × (block_of r (start + k) ≡ some (Xad.address x + (start + k - Xad.offset x)))
  unfolding block_of scan
  punch_extents-aliases x xs k e bx sp hk hb =
      let one = punch_one_spanning start end k x ordered bx sp hk hb in
      let s = spans_bounds start end x sp in
      let was = block_in_head (start + k) x xs (omega arith) (omega arith) in
      let behind = block_in_head (end + k) x xs (omega arith) (omega arith) in
      let now =
        block_in-append (end + k) (punch_one start end x).0 (scan (punch_one start end) xs).0
        ∙ ground (arith, one) in
      (
        rw (live-punch_extents, e, was) now,
        rw (e, was, behind) (ground arith),
        freed_head x xs e (Xad.address x + (start + k - Xad.offset x)) one.1,
        rw e was,
      )

-- With `start ≤ end` and live entries that have 40-bit ends, the blocks that a punch gives back
-- are exactly the physical blocks that the live entries held for logical blocks of `[start,
-- end)`, on every branch.
pub freed-punch_extents :
    (r : XtRoot) (start end p : ℕ)
    → start ≤ end
    → All IsBounded (live r)
    → any (in_range p) (punch_extents r start end).1 ≡ any (holds_between start end p) (live r)
unfolding punch_extents
freed-punch_extents r start end p o h =
    any-scan (punch_one start end) (in_range p) (holds_between start end p) IsBounded
      (λ x hx. punch_one-freed start end p x o hx) (live r) h
