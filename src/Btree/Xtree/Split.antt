-- ===== src/Btree/Xtree/Split.antt =====
-- `split_extent` of src/btree/xtree.rs.
pub mod Keeps
pub mod Disorder
use jfsfuse.Prelude.{
  ℕ, suc, ◌+◌, ◌-◌, ◌/◌, max, Bool, true, false, ◌&&◌, Option, none, some, List, [], ◌∷◌, ltb, ◌==◌,
  if◌then◌else◌, length, set, as_u16, as_u32,
}
use jfsfuse.Types.Xad
use jfsfuse.Types.Xad.{Xad}
use jfsfuse.Types.XtRoot
use jfsfuse.Types.XtRoot.{XtRoot, xtrootmaxslot, xtentrystart}
use jfsfuse.Btree.Xtree.{live, fill}

-- The search: the first entry that `split_at` falls inside, counted from the first live slot.
unfoldable pub find_split : ℕ → List Xad → Option ℕ
find_split at [] = none
find_split at (x ∷ xs) =
    let rest = find_split at xs in
    if ltb (Xad.offset x) at && ltb at (Xad.offset x + Xad.length_of x)
    then some 0
    else elim rest [ none ↦ none | some i ↦ some (suc i) ]

-- The writes of a split of slot `idx`: the entry keeps its head, and its tail goes to slot `next`.
unfoldable pub split_at_slot : XtRoot → ℕ → ℕ → XtRoot
split_at_slot r at idx =
    let next = XtRoot.next_index r in
    let x = XtRoot.slot r idx in
    let keep_len = as_u32 (at - Xad.offset x) in
    let kept = XtRoot.set_slot idx (Xad.set_length keep_len x) r in
    let tail =
      fill at (Xad.length_of x - keep_len) (Xad.address x + keep_len) (XtRoot.slot kept next) in
    XtRoot.set_nextindex (as_u16 (next + 1)) (XtRoot.set_slot next (Xad.set_flag 0 tail) kept)

unfoldable pub split_extent : XtRoot → ℕ → Bool × XtRoot
unfolding find_split split_at_slot
split_extent r at = if at == 0 then (false, r) else elim (find_split at (live r)) [
  | none ↦ (false, r)
  | some i ↦
      if ltb xtrootmaxslot (XtRoot.next_index r + 1)
      then (false, r)
      else (true, split_at_slot r at (xtentrystart + i))
]
