-- ===== src/Btree/Xtree/Range/WriteBack.antt =====
-- After `write_back` the live entries are the kept ones, if they fit in the slots.
use jfsfuse.Prelude.{
  ℕ, zero, suc, ◌+◌, ◌-◌, ◌%◌, ◌^◌, ◌≤◌, ◌<◌, min, ◌≡◌, refl, ◌∙◌, List, [], ◌∷◌, arith, ltb,
  if◌then◌else◌, lt→ltb, length, get_or, set, take, drop, length-set, get_or-set_self,
  get_or-set_ne,
}
use jfsfuse.Types.Xad
use jfsfuse.Types.Xad.{Xad}
use jfsfuse.Types.XtRoot
use jfsfuse.Types.XtRoot.{XtRoot, HasSlots, xtrootmaxslot, xtentrystart}
use jfsfuse.Btree.Xtree.{live}
use jfsfuse.Btree.Xtree.Range.{write_kept, clear, write_back}

pub length-write_kept :
    (kept : List Xad) (i : ℕ) (slots : List Xad) → length (write_kept kept i slots) ≡ length slots
unfolding write_kept
length-write_kept [] i slots = refl
length-write_kept (x ∷ kept) i slots = ground (
  arith,
  length-set slots i x,
  length-write_kept kept (i + 1) (if ltb i xtrootmaxslot then set slots i x else slots),
)

length-clear : (n i : ℕ) (slots : List Xad) → length (clear n i slots) ≡ length slots
unfolding clear
length-clear zero i slots = refl
length-clear (suc n) i slots =
    length-clear n (i + 1) (set slots i Xad.default) ∙ length-set slots i Xad.default

pub write_back-HasSlots : (kept : List Xad) (r : XtRoot) → HasSlots r → HasSlots (write_back kept r)
unfolding write_back
write_back-HasSlots kept r h =
    length-clear (min (XtRoot.next_index r) 18 - (2 + length kept)) (2 + length kept)
      (write_kept kept 2 r.xad)
    ∙ length-write_kept kept 2 r.xad
    ∙ h

module _ (d : Xad) where
  -- writes at `i` and above leave the slots below alone
  get_or-write_kept :
      (kept : List Xad) (i j : ℕ) (slots : List Xad)
      → j < i
      → get_or (write_kept kept i slots) j d ≡ get_or slots j d
  unfolding write_kept
  get_or-write_kept [] i j slots h = refl
  get_or-write_kept (x ∷ kept) i j slots h =
      get_or-write_kept kept (i + 1) j (if ltb i xtrootmaxslot then set slots i x else slots)
        (omega arith)
      ∙ ground (arith, get_or-set_ne slots i j x d (omega arith))

  get_or-clear :
      (n i j : ℕ) (slots : List Xad) → j < i → get_or (clear n i slots) j d ≡ get_or slots j d
  unfolding clear
  get_or-clear zero i j slots h = refl
  get_or-clear (suc n) i j slots h =
      get_or-clear n (i + 1) j (set slots i Xad.default) (omega arith)
      ∙ get_or-set_ne slots i j Xad.default d (omega arith)

  take-drop-split :
      (n i : ℕ) (xs : List Xad)
      → i < length xs
      → take (suc n) (drop i xs) ≡ get_or xs i d ∷ take n (drop (i + 1) xs)
  take-drop-split n i [] h = absurd (omega arith)
  take-drop-split n zero (x ∷ xs) h = refl
  take-drop-split n (suc i) (x ∷ xs) h =
      let e : suc i + 1 ≡ suc (i + 1) = omega arith in rw e (take-drop-split n i xs (omega arith))

  -- the part of a list that a loop over indices sees depends only on those indices
  take-drop-congr :
      (n i : ℕ) (xs ys : List Xad)
      → i + n ≤ length xs
      → i + n ≤ length ys
      → ((j : ℕ) → j < i + n → get_or xs j d ≡ get_or ys j d)
      → take n (drop i xs) ≡ take n (drop i ys)
  take-drop-congr zero i xs ys hx hy h = refl
  take-drop-congr (suc n) i xs ys hx hy h =
      rw (take-drop-split n i xs (omega arith), take-drop-split n i ys (omega arith))
        (let heads = h i (omega arith) in
          let tails =
            take-drop-congr n (i + 1) xs ys (omega arith) (omega arith)
              (λ j hj. h j (omega arith)) in
          λ k. heads k ∷ tails k)

  write_kept-cons :
      (x : Xad) (kept : List Xad) (i : ℕ) (slots : List Xad)
      → i < xtrootmaxslot
      → write_kept (x ∷ kept) i slots ≡ write_kept kept (i + 1) (set slots i x)
  unfolding write_kept
  write_kept-cons x kept i slots h = rw (lt→ltb i xtrootmaxslot h)

  take-write_kept :
      (kept : List Xad) (i : ℕ) (slots : List Xad)
      → length slots ≡ xtrootmaxslot
      → i + length kept ≤ xtrootmaxslot
      → take (length kept) (drop i (write_kept kept i slots)) ≡ kept
  take-write_kept [] i slots hs h = refl
  take-write_kept (x ∷ kept) i slots hs h =
      let next = set slots i x in
      let rest = take-write_kept kept (i + 1) next (length-set slots i x ∙ hs) (omega arith) in
      let first =
        get_or-write_kept kept (i + 1) i next (omega arith)
        ∙ get_or-set_self slots i x d (omega arith) in
      rw (write_kept-cons x kept i slots (omega arith)) (
        take-drop-split (length kept) i (write_kept kept (i + 1) next)
          (omega (arith, length-write_kept kept (i + 1) next, length-set slots i x))
        ∙ λ k. first k ∷ rest k)

pub live-write_back :
    (kept : List Xad) (r : XtRoot) → HasSlots r → length kept ≤ 16 → live (write_back kept r) ≡ kept
unfolding write_back
live-write_back kept r hs h = rw fits (
    take-drop-congr Xad.default (length kept) 2 (clear left from wrote) wrote
      (omega (arith, length-clear left from wrote, length-write_kept kept 2 r.xad))
      (omega (arith, length-write_kept kept 2 r.xad))
      (λ j hj. get_or-clear Xad.default left from j wrote hj)
    ∙ take-write_kept Xad.default kept 2 r.xad hs (omega arith))
  where
    from : ℕ
    from = 2 + length kept

    left : ℕ
    left = min (XtRoot.next_index r) 18 - from

    wrote : List Xad
    wrote = write_kept kept 2 r.xad

    fits : min ((2 + length kept) % 2 ^ 16) 18 - 2 ≡ length kept
    fits = omega arith
