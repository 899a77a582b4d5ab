-- ===== src/Btree/Xtree/Insert/Extend.antt =====
-- `insert_extent`, which first tries to grow the last live extent.
use jfsfuse.Prelude.{
  ℕ, ◌+◌, ◌-◌, ◌^◌, ◌≤◌, ◌<◌, ◌≡◌, refl, Bool, true, ◌&&◌, List, arith, ltb, ◌==◌, gt→leb, take,
  drop, get_or-set_self, as_u32,
}
use jfsfuse.Types.Xad
use jfsfuse.Types.Xad.{Xad}
use jfsfuse.Types.Xad.Fields as XadFields
use jfsfuse.Types.XtRoot
use jfsfuse.Types.XtRoot.{XtRoot, HasSlots}
use jfsfuse.Btree.Xtree.{insert_extent}
use jfsfuse.Btree.Xtree.Insert.{IsRoot}

abbrev pub last_of : XtRoot → Xad
last_of r = XtRoot.slot r (XtRoot.next_index r - 1)

-- Whether the new extent continues the last live one, in the file and on the disk.
abbrev pub continues : XtRoot → ℕ → ℕ → Bool
continues r offset addr =
    ltb 2 (XtRoot.next_index r)
    && (Xad.offset (last_of r) + Xad.length_of (last_of r) == offset)
    && (Xad.address (last_of r) + Xad.length_of (last_of r) == addr)

abbrev grown : XtRoot → ℕ → XtRoot
grown r len =
    XtRoot.set_slot (XtRoot.next_index r - 1)
      (Xad.set_length (as_u32 (Xad.length_of (last_of r) + len)) (last_of r)) r

insert_extent-grown :
    (r : XtRoot) (offset len addr : ℕ)
    → IsRoot r
    → continues r offset addr ≡ true
    → insert_extent r offset len addr ≡ (true, grown r len)
unfolding insert_extent
insert_extent-grown r offset len addr w c =
    rw (c, gt→leb 18 (XtRoot.next_index r - 1) (omega arith)) (ground arith)

module _ (r : XtRoot) (w : IsRoot r) (lo : 2 < XtRoot.next_index r) where
  -- the live entries before the last one
  abbrev before : List Xad
  before = take (XtRoot.next_index r - 3) (drop 2 r.xad)

continues_parts :
    (r : XtRoot) (offset addr : ℕ)
    → continues r offset addr ≡ true
    → (2 < XtRoot.next_index r)
      × (Xad.offset (last_of r) + Xad.length_of (last_of r) ≡ offset)
      × (Xad.address (last_of r) + Xad.length_of (last_of r) ≡ addr)
continues_parts r offset addr c = ground arith

-- In a root whose `nextindex` is in bounds, growing the last extent by fewer than 2^24 blocks
-- past 2^24 - 1 is answered with `true`, and leaves that extent shorter than it was before.
pub insert_extent_wraps :
    (r : XtRoot) (offset len addr : ℕ)
    → IsRoot r
    → continues r offset addr ≡ true
    → len < 2 ^ 24
    → 2 ^ 24 ≤ Xad.length_of (last_of r) + len
    → let (done, r') = insert_extent r offset len addr in
      (done ≡ true) × (Xad.length_of (last_of r') < Xad.length_of (last_of r))
insert_extent_wraps r offset len addr w c l h =
    let p = continues_parts r offset addr c in
    let y = Xad.set_length (as_u32 (Xad.length_of (last_of r) + len)) (last_of r) in
    let at =
      get_or-set_self r.xad (XtRoot.next_index r - 1) y Xad.default (omega (arith, w.slots)) in
    rw (insert_extent-grown r offset len addr w c) (
      refl,
      rw at (
          omega (
            arith,
            XadFields.length_of-lt (last_of r),
            XadFields.length_of-set_length (as_u32 (Xad.length_of (last_of r) + len)) (last_of r),
          )),
    )
