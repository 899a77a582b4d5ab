-- ===== src/Btree/Xtree/Range/Truncate.antt =====
-- `truncate_extents` cuts the block map at the new end of file and gives back the blocks behind it.
use jfsfuse.Prelude.{
  ℕ, ◌-◌, ◌≤◌, ◌≡◌, none, [], ◌∷◌, arith, ltb, if◌then◌else◌, length, any, as_u32,
}
use jfsfuse.Types.Xad
use jfsfuse.Types.Xad.{Xad}
use jfsfuse.Types.Xad.Fields.{
  length_of-lt, offset-set_length, length_of-set_length, address-set_length,
}
use jfsfuse.Types.XtRoot.{XtRoot, HasSlots}
use jfsfuse.Btree.Xtree.{live}
use jfsfuse.Btree.Xtree.Mapping.{block_in, block_of, in_range, holds_from}
use jfsfuse.Btree.Xtree.Range.{scan, truncate_one, truncate_extents}
use jfsfuse.Btree.Xtree.Range.WriteBack.{live-write_back}
use jfsfuse.Btree.Xtree.Range.Kept.{
  block_in-scan, length-scan-le, any-scan, All-trivial, length-live-le,
}

truncate_one-kept :
    (eof b : ℕ) (x : Xad)
    → block_in b (truncate_one eof x).0 ≡ (if ltb b eof then block_in b (x ∷ []) else none)
unfolding truncate_one block_in
truncate_one-kept eof b x =
    let n = as_u32 (eof - Xad.offset x) in
    ground (
      arith,
      length_of-lt x,
      offset-set_length n x,
      length_of-set_length n x,
      address-set_length n x,
    )

truncate_one-short : (eof : ℕ) (x : Xad) → length (truncate_one eof x).0 ≤ 1
unfolding truncate_one
truncate_one-short eof x = ground arith

-- In a root with all its slots, after a truncation to `eof` blocks every block below `eof` is
-- mapped as before, and no block from `eof` on is mapped. The entries may overlap and lie in any
-- order.
pub block_of-truncate_extents :
    (r : XtRoot) (eof b : ℕ)
    → HasSlots r
    → block_of (truncate_extents r eof).0 b ≡ (if ltb b eof then block_of r b else none)
unfolding truncate_extents block_of
block_of-truncate_extents r eof b h =
    let kept = (scan (truncate_one eof) (live r)).0 in
    let short = length-scan-le (truncate_one eof) (truncate_one-short eof) (live r) in
    rw (live-write_back kept r h (omega (arith, short, length-live-le r))) (
      block_in-scan (truncate_one eof) (ltb b eof) b (λ _. Unit {0})
        (λ x _. truncate_one-kept eof b x) (live r) (All-trivial (live r)))

truncate_one-freed :
    (eof p : ℕ) (x : Xad) → any (in_range p) (truncate_one eof x).1 ≡ holds_from eof p x
unfolding truncate_one
truncate_one-freed eof p x = ground (arith, length_of-lt x)

-- The blocks that a truncation gives back are exactly the physical blocks that the live entries
-- held for logical blocks from `eof` on.
pub freed-truncate_extents :
    (r : XtRoot) (eof p : ℕ)
    → any (in_range p) (truncate_extents r eof).1 ≡ any (holds_from eof p) (live r)
unfolding truncate_extents
freed-truncate_extents r eof p =
    any-scan (truncate_one eof) (in_range p) (holds_from eof p) (λ _. Unit {0})
      (λ x _. truncate_one-freed eof p x) (live r) (All-trivial (live r))
