-- ===== src/Btree/Xtree/Split/Disorder.antt =====
-- A split puts the tail behind all other entries, which `validate` then rejects.
use jfsfuse.Prelude.{
  ℕ, zero, suc, ◌+◌, ◌-◌, ◌%◌, ◌^◌, ◌<◌, ◌≡◌, refl, ◌∙◌, ◌≢◌, inl, inr, true, some, List, [], ◌∷◌,
  ◌++◌, arith, ge→ltb, ≢→==, length, get_or, set, length-set, get_or-set_ne, as_u32,
}
use mathlib.Core.Path.{subst}
use jfsfuse.Types.Xad
use jfsfuse.Types.Xad.{Xad}
use jfsfuse.Types.Xad.Fields as XadFields
use jfsfuse.Types.XtRoot
use jfsfuse.Types.XtRoot.{XtRoot}
use jfsfuse.Btree.Xtree.{live, fill}
use jfsfuse.Btree.Xtree.Order.{IsOrdered, Validity, validate, validate-IsOrdered}
use jfsfuse.Btree.Xtree.Insert.{IsRoot}
use jfsfuse.Btree.Xtree.Split.{find_split, split_at_slot, split_extent}
use jfsfuse.Btree.Xtree.Split.Keeps.{
  find_split_inside, shorten, split_tail, split_entry, shortened_root, live-split_at_slot,
}

-- An ordered list ends behind each of its entries that is not empty.
not-IsOrdered :
    (low j : ℕ) (xs : List Xad) (y : Xad)
    → j < length xs
    → 0 < Xad.length_of (get_or xs j Xad.default)
    → Xad.offset y < Xad.offset (get_or xs j Xad.default)
    → 0 < Xad.length_of y
    → ¬ IsOrdered low (xs ++ (y ∷ []))
not-IsOrdered low j [] y h p l q o = absurd (omega arith)
not-IsOrdered low zero (x ∷ xs) y h p l q (inl (z, o)) = absurd (omega arith)
not-IsOrdered low zero (x ∷ xs) y h p l q (inr (k, m, o)) =
    ends_low (Xad.offset x + Xad.length_of x) xs y q (omega arith) o
  where
    ends_low :
        (low : ℕ) (xs : List Xad) (y : Xad)
        → 0 < Xad.length_of y
        → Xad.offset y < low
        → ¬ IsOrdered low (xs ++ (y ∷ []))
    ends_low low [] y q l o = ground arith
    ends_low low (x ∷ xs) y q l (inl (z, o)) = ends_low low xs y q l o
    ends_low low (x ∷ xs) y q l (inr (k, m, o)) =
        ends_low (Xad.offset x + Xad.length_of x) xs y q (omega arith) o
not-IsOrdered low (suc j) (x ∷ xs) y h p l q (inl (z, o)) =
    not-IsOrdered low j xs y (omega arith) p l q o
not-IsOrdered low (suc j) (x ∷ xs) y h p l q (inr (k, m, o)) =
    not-IsOrdered (Xad.offset x + Xad.length_of x) j xs y (omega arith) p l q o

get_or-set_other :
    (xs : List Xad) (i j : ℕ) (y : Xad)
    → i < j
    → get_or (set xs i y) j Xad.default ≡ get_or xs j Xad.default
get_or-set_other xs i j y h = get_or-set_ne xs i j y Xad.default (omega arith)

module _ (r : XtRoot) (at i : ℕ) (w : IsRoot r) (room : XtRoot.next_index r < 18)
    (inside : i < length (live r)) where
  tail_offset : Xad.offset (split_tail r at i w room inside) ≡ at % 2 ^ 40
  tail_offset =
      let y = split_entry r at i w room inside in
      let n = Xad.length_of y - as_u32 (at - Xad.offset y) in
      let a = Xad.address y + as_u32 (at - Xad.offset y) in
      let z = XtRoot.slot (shortened_root r at i w room inside) (XtRoot.next_index r) in
      XadFields.offset-set_flag 0 (fill at n a z) ∙ (XadFields.written at n a z).0

  tail_length :
      let y = split_entry r at i w room inside in
      Xad.length_of (split_tail r at i w room inside)
      ≡ (Xad.length_of y - as_u32 (at - Xad.offset y)) % 2 ^ 24
  tail_length =
      let y = split_entry r at i w room inside in
      let n = Xad.length_of y - as_u32 (at - Xad.offset y) in
      let a = Xad.address y + as_u32 (at - Xad.offset y) in
      let z = XtRoot.slot (shortened_root r at i w room inside) (XtRoot.next_index r) in
      XadFields.length_of-set_flag 0 (fill at n a z) ∙ (XadFields.written at n a z).1

-- If an entry that is not empty and starts behind the split follows the entry that is split, at
-- a block below 2^40 and in a root with `nextindex` in bounds and a free slot, then the split is
-- done and its result does not pass `validate`.
pub split_extent_disorders :
    (r : XtRoot) (at i j : ℕ)
    → IsRoot r
    → XtRoot.next_index r < 18
    → find_split at (live r) ≡ some i
    → i < j
    → j < length (live r)
    → 0 < Xad.length_of (get_or (live r) j Xad.default)
    → at < Xad.offset (get_or (live r) j Xad.default)
    → at < 2 ^ 40
    → ((split_extent r at).0 ≡ true) × (validate (split_extent r at).1 ≢ Validity.valid)
unfolding split_extent
split_extent_disorders r at i j w room found lt inside some_blocks behind small =
    let f = find_split_inside at i (live r) found in
    let y = split_entry r at i w room f.0 in
    let t = split_tail r at i w room f.0 in
    let rest = set (live r) i (shorten at y) in
    let other = get_or-set_other (live r) i j (shorten at y) lt in
    let bad : ¬ IsOrdered 0 (rest ++ (t ∷ [])) =
      not-IsOrdered 0 j rest t (omega (arith, length-set (live r) i (shorten at y)))
        (rw other some_blocks) (rw (other, tail_offset r at i w room f.0) (omega arith))
        (rw (tail_length r at i w room f.0) (omega (arith, XadFields.length_of-lt y))) in
    rw (≢→== at 0 (omega arith), found, ge→ltb 18 (XtRoot.next_index r + 1) (omega arith))
      (
        refl,
        λ v. bad (
            subst (IsOrdered 0) (live-split_at_slot r at i w room f.0)
              ((validate-IsOrdered (split_at_slot r at (2 + i))).0 v)),
      )
