-- ===== src/Btree/Xtree/Range/Take.antt =====
-- `take_extents` splits the block map of the file into what stays and what is handed over.
use jfsfuse.Prelude.{
  ℕ, ◌+◌, ◌-◌, ◌≤◌, ◌≡◌, refl, ◌∙◌, Bool, not, ◌&&◌, Option, none, some, List, [], ◌∷◌, ◌++◌, arith,
  ltb, leb, if◌then◌else◌, or_else, length, All, as_u32,
}
use jfsfuse.Types.Xad
use jfsfuse.Types.Xad.{Xad}
use jfsfuse.Types.Xad.Fields as XadFields
use jfsfuse.Types.XtRoot.{XtRoot, HasSlots}
use jfsfuse.Btree.Xtree.{live}
use jfsfuse.Btree.Xtree.Mapping.{block_in, block_of, IsBounded}
use jfsfuse.Btree.Xtree.Range.{Place, Taken, scan, place, take_at, take_one, take_extents}
use jfsfuse.Btree.Xtree.Range.Places.{HasPlace, place-HasPlace, spans, Fits}
use jfsfuse.Btree.Xtree.Range.WriteBack.{live-write_back}
use jfsfuse.Btree.Xtree.Range.Kept.{block_in-scan, length-scan_extra-le}

-- whether a logical block lies in the range
abbrev pub in_fsb_range : ℕ → ℕ → ℕ → Bool
in_fsb_range start end b = leb start b && ltb b end

-- The block map of what was handed over.
unfoldable pub block_taken : ℕ → List Taken → Option ℕ
block_taken b [] = none
block_taken b ((off, len, addr) ∷ ts) =
    if leb off b && ltb b (off + len) then some (addr + (b - off)) else block_taken b ts

block_taken-append :
    (b : ℕ) (xs ys : List Taken)
    → block_taken b (xs ++ ys) ≡ or_else (block_taken b xs) (block_taken b ys)
unfolding block_taken
block_taken-append b [] ys = refl
block_taken-append b ((o, n, a) ∷ xs) ys = ground (arith, block_taken-append b xs ys)

module _ (start end : ℕ) (ordered : start ≤ end) (b : ℕ) (x : Xad) (bounded : IsBounded x) where
  abbrev left : ℕ
  left = as_u32 (start - Xad.offset x)

  -- One branch of the code: the kept entries map the blocks outside the range as `x` did, and the
  -- extents handed over map those inside.
  abbrev Splits : Place → Type 0
  Splits p =
      (block_in b (take_at p start end x).0
        ≡ (if not (in_fsb_range start end b) then block_in b (x ∷ []) else none))
      × (block_taken b (take_at p start end x).1
          ≡ (if in_fsb_range start end b then block_in b (x ∷ []) else none))

  take_at-Splits : (p : Place) → HasPlace p start end x → Splits p
  unfolding take_at block_in block_taken
  take_at-Splits Place.empty h = ground arith
  take_at-Splits Place.outside h = ground arith
  take_at-Splits Place.within h = ground arith
  take_at-Splits Place.spanning h = ground (
    arith,
    XadFields.length_of-lt x,
    XadFields.shortened left x,
    XadFields.written end (as_u32 (Xad.offset x + Xad.length_of x - end))
        (Xad.address x + left + (end - start)) x,
  )
  take_at-Splits Place.head_kept h =
      ground (arith, XadFields.length_of-lt x, XadFields.shortened left x)
  take_at-Splits Place.tail_kept h = ground (
    arith,
    XadFields.length_of-lt x,
    XadFields.written end (Xad.length_of x - as_u32 (end - Xad.offset x))
        (Xad.address x + as_u32 (end - Xad.offset x)) x,
  )

  take_one-kept :
      block_in b (take_one start end x).0
      ≡ (if not (in_fsb_range start end b) then block_in b (x ∷ []) else none)
  unfolding take_one
  take_one-kept = (take_at-Splits (place start end x) (place-HasPlace start end x)).0

  take_one-taken :
      block_taken b (take_one start end x).1
      ≡ (if in_fsb_range start end b then block_in b (x ∷ []) else none)
  unfolding take_one
  take_one-taken = (take_at-Splits (place start end x) (place-HasPlace start end x)).1

taken_scan :
    (start end b : ℕ)
    → start ≤ end
    → (xs : List Xad) → All IsBounded xs
    → block_taken b (scan (take_one start end) xs).1
      ≡ (if in_fsb_range start end b then block_in b xs else none)
unfolding scan block_in
taken_scan start end b o [] h = unfold block_taken in ground arith
taken_scan start end b o (x ∷ xs) h =
    rw (block_taken-append b (take_one start end x).1 (scan (take_one start end) xs).1)
      (ground (arith, take_one-taken start end o b x h.0, taken_scan start end b o xs h.1))

length-take_one-le :
    (start end : ℕ) (x : Xad)
    → length (take_one start end x).0 ≤ 1 + (if spans start end x then 1 else 0)
unfolding take_one take_at
length-take_one-le start end x = ground arith

-- Taking `[start, end)` with `start ≤ end` out of a root with all its slots, whose entries have
-- 40-bit ends, and room in the slots for the entries that are split in two: outside the range
-- every block stays mapped as it was, inside no block is mapped any more, and the extents handed
-- over map the blocks inside to where the file had them.
pub block_of-take_extents :
    (r : XtRoot) (start end b : ℕ)
    → HasSlots r
    → All IsBounded (live r)
    → start ≤ end
    → Fits start end r
    → (block_of (take_extents r start end).0 b
        ≡ (if in_fsb_range start end b then none else block_of r b))
      × (block_taken b (take_extents r start end).1
          ≡ (if in_fsb_range start end b then block_of r b else none))
unfolding take_extents block_of
block_of-take_extents r start end b hs hb o fits = (
  rw
      (live-write_back (scan (take_one start end) (live r)).0 r hs (
        omega (
          arith,
          length-scan_extra-le (take_one start end) (spans start end) (length-take_one-le start end)
              (live r),
        )))
      (block_in-scan (take_one start end) (not (in_fsb_range start end b)) b IsBounded
          (λ x hx. take_one-kept start end o b x hx) (live r) hb
        ∙ ground arith),
  taken_scan start end b o (live r) hb,
)
