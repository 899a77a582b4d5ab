-- ===== src/Btree/Xtree/Range.antt =====
-- `truncate_extents`, `punch_extents` and `take_extents` of src/btree/xtree.rs. Each scans the live
-- entries, collects what it keeps and what it gives back, and writes the kept entries over the
-- slots.
pub mod WriteBack
pub mod Kept
pub mod Places
pub mod Truncate
pub mod Take
pub mod Punch
use jfsfuse.Prelude.{
  ℕ, zero, suc, ◌+◌, ◌-◌, ◌/◌, min, max, ◌&&◌, List, [], ◌∷◌, ◌++◌, ltb, leb, ◌==◌, if◌then◌else◌,
  tests, length, set, take, drop, as_u16, as_u32,
}
use jfsfuse.Types.Xad
use jfsfuse.Types.Xad.{Xad}
use jfsfuse.Types.XtRoot
use jfsfuse.Types.XtRoot.{XtRoot, xtrootmaxslot, xtentrystart}
use jfsfuse.Btree.Xtree.{live}

-- `(physical address, block count)`
abbrev pub Freed : Type 0
Freed = ℕ × ℕ

-- `(logical offset, length, physical address)`
abbrev pub Taken : Type 0
Taken = ℕ × ℕ × ℕ

-- The scan: each entry pushes to `kept` and to `freed` or `taken`, in order.
unfoldable pub scan {ℓ} : {A : Type ℓ} → (Xad → List Xad × List A) → List Xad → List Xad × List A
scan one [] = ([], [])
scan one (x ∷ xs) = ((one x).0 ++ (scan one xs).0, (one x).1 ++ (scan one xs).1)

-- Write the kept entries from slot `i` on; one that falls behind the last slot is dropped.
unfoldable pub write_kept : List Xad → ℕ → List Xad → List Xad
write_kept [] i slots = slots
write_kept (x ∷ kept) i slots =
    write_kept kept (i + 1) (if ltb i xtrootmaxslot then set slots i x else slots)

-- Clear `n` slots from `i` on.
unfoldable pub clear : ℕ → ℕ → List Xad → List Xad
clear zero i slots = slots
clear (suc n) i slots = clear n (i + 1) (set slots i Xad.default)

unfoldable pub write_back : List Xad → XtRoot → XtRoot
unfolding write_kept clear
write_back kept r =
    let new_next = xtentrystart + length kept in
    let leftover = min (XtRoot.next_index r) xtrootmaxslot - new_next in
    XtRoot.set_nextindex (as_u16 new_next)
      (record r { xad = clear leftover new_next (write_kept kept xtentrystart r.xad) })

unfoldable pub truncate_one : ℕ → Xad → List Xad × List Freed
truncate_one eof x =
    let off = Xad.offset x in
    let len = Xad.length_of x in
    let addr = Xad.address x in
    let keep_len = as_u32 (eof - off) in
    let free_len = as_u32 (off + len - eof) in
    if len == 0
    then ([], [])
    else if leb eof off
    then ([], (addr, len) ∷ [])
    else if ltb eof (off + len)
    then (Xad.set_length keep_len x ∷ [], (addr + keep_len, free_len) ∷ [])
    else (x ∷ [], [])

unfoldable pub truncate_extents : XtRoot → ℕ → XtRoot × List Freed
unfolding scan write_back
truncate_extents r eof =
    let (kept, freed) = scan (truncate_one eof) (live r) in (write_back kept r, freed)

-- The tests that `punch_extents` and `take_extents` make of an entry, in their order.
pub data Place : Type 0 where
  empty outside within spanning head_kept tail_kept : Place

unfoldable pub place : ℕ → ℕ → Xad → Place
place start end x =
    let off = Xad.offset x in
    let ext_end = off + Xad.length_of x in
    if Xad.length_of x == 0
    then Place.empty
    else if leb ext_end start
    then Place.outside
    else if leb end off
    then Place.outside
    else if leb start off && leb ext_end end
    then Place.within
    else if ltb off start && ltb end ext_end
    then Place.spanning
    else if ltb off start
    then Place.head_kept
    else Place.tail_kept

-- The branches of `punch_extents`.
unfoldable pub punch_at : Place → ℕ → ℕ → Xad → List Xad × List Freed
punch_at p start end x =
    let off = Xad.offset x in
    let len = Xad.length_of x in
    let addr = Xad.address x in
    let left_len = as_u32 (start - off) in
    let right_len = as_u32 (off + len - end) in
    let free_len = as_u32 (end - off) in
    elim p [
      | Place.empty ↦ ([], [])
      | Place.outside ↦ (x ∷ [], [])
      | Place.within ↦ ([], (addr, len) ∷ [])
      | Place.spanning ↦ (
        Xad.set_length left_len x
            ∷ Xad.set_address (addr + left_len) (Xad.set_length right_len (Xad.set_offset end x))
            ∷ [],
        (addr + left_len, as_u32 (end - start)) ∷ [],
      )
      | Place.head_kept ↦ (Xad.set_length left_len x ∷ [], (addr + left_len, len - left_len) ∷ [])
      | Place.tail_kept ↦ (
        Xad.set_address (addr + free_len) (Xad.set_length right_len (Xad.set_offset end x)) ∷ [],
        (addr, free_len) ∷ [],
      )
    ]

unfoldable pub punch_one : ℕ → ℕ → Xad → List Xad × List Freed
unfolding place punch_at
punch_one start end x = punch_at (place start end x) start end x

unfoldable pub punch_extents : XtRoot → ℕ → ℕ → XtRoot × List Freed
unfolding scan write_back
punch_extents r start end =
    let (kept, freed) = scan (punch_one start end) (live r) in (write_back kept r, freed)

-- The branches of `take_extents`.
unfoldable pub take_at : Place → ℕ → ℕ → Xad → List Xad × List Taken
take_at p start end x =
    let off = Xad.offset x in
    let len = Xad.length_of x in
    let addr = Xad.address x in
    let left_len = as_u32 (start - off) in
    let right_len = as_u32 (off + len - end) in
    let take_len = as_u32 (end - off) in
    elim p [
      | Place.empty ↦ ([], [])
      | Place.outside ↦ (x ∷ [], [])
      | Place.within ↦ ([], (off, len, addr) ∷ [])
      | Place.spanning ↦ (
        Xad.set_length left_len x
            ∷ Xad.set_address (addr + left_len + (end - start))
                (Xad.set_length right_len (Xad.set_offset end x))
            ∷ [],
        (start, as_u32 (end - start), addr + left_len) ∷ [],
      )
      | Place.head_kept ↦
          (Xad.set_length left_len x ∷ [], (start, len - left_len, addr + left_len) ∷ [])
      | Place.tail_kept ↦ (
        Xad.set_address (addr + take_len) (Xad.set_length (len - take_len) (Xad.set_offset end x))
            ∷ [],
        (off, take_len, addr) ∷ [],
      )
    ]

unfoldable pub take_one : ℕ → ℕ → Xad → List Xad × List Taken
unfolding place take_at
take_one start end x = take_at (place start end x) start end x

unfoldable pub take_extents : XtRoot → ℕ → ℕ → XtRoot × List Taken
unfolding scan write_back
take_extents r start end =
    let (kept, taken) = scan (take_one start end) (live r) in (write_back kept r, taken)
