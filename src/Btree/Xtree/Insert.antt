-- ===== src/Btree/Xtree/Insert.antt =====
-- `insert_extent` and `insert_taken_extent` against the block map.
pub mod Extend
use jfsfuse.Prelude.{
  ℕ, zero, suc, ◌+◌, ◌-◌, ◌^◌, ◌≤◌, ◌<◌, min, ◌≡◌, refl, ap, ◌∙◌, Bool, true, false, not, ◌&&◌,
  Option, none, some, List, [], ◌∷◌, ◌++◌, map, arith, ltb, leb, if◌then◌else◌, le→leb, gt→leb,
  or_else, length, get_or, set, take, drop, length-drop, as_u16,
}
use jfsfuse.Types.Xad
use jfsfuse.Types.Xad.{Xad}
use jfsfuse.Types.Xad.Fields as XadFields
use jfsfuse.Types.XtRoot
use jfsfuse.Types.XtRoot.{XtRoot, HasSlots}
use jfsfuse.Btree.Xtree.{live, append_extent, fill}
use jfsfuse.Btree.Xtree.Mapping.{block_in, block_of, block_in-append}

-- The extent that a caller may insert: it is not empty and its fields have room for it.
pub record IsNew (offset len addr : ℕ) : Type 0 where
  pub some_blocks : 0 < len
  pub len_u24 : len < 2 ^ 24
  pub offset_u40 : offset + len ≤ 2 ^ 40
  pub addr_u40 : addr + len ≤ 2 ^ 40

-- The root's own fields: `nextindex` lies between the header slots and the end of the array.
pub record IsRoot (r : XtRoot) : Type 0 where
  pub slots : HasSlots r
  pub next_low : 2 ≤ XtRoot.next_index r
  pub next_high : XtRoot.next_index r ≤ 18

-- The new extent's own part of the block map.
abbrev pub block_new : ℕ → ℕ → ℕ → ℕ → Option ℕ
block_new offset len addr b =
    if leb offset b && ltb b (offset + len) then some (addr + (b - offset)) else none

-- Writing the slot behind the first `m` live ones.
pub take-set_last :
    (m : ℕ) (xs : List Xad) (y : Xad)
    → m < length xs
    → take (suc m) (set xs m y) ≡ take m xs ++ (y ∷ [])
take-set_last m [] y h = absurd (omega arith)
take-set_last zero (x ∷ xs) y h = refl
take-set_last (suc m) (x ∷ xs) y h = ap (λ l. x ∷ l) (take-set_last m xs y (omega arith))

take-last :
    (m : ℕ) (xs : List Xad)
    → m < length xs
    → take (suc m) xs ≡ take m xs ++ (get_or xs m Xad.default ∷ [])
take-last m [] h = absurd (omega arith)
take-last zero (x ∷ xs) h = refl
take-last (suc m) (x ∷ xs) h = ap (λ l. x ∷ l) (take-last m xs (omega arith))

pub drop-set :
    (xs : List Xad) (i : ℕ) (y : Xad) → drop 2 (set xs (suc (suc i)) y) ≡ set (drop 2 xs) i y
drop-set [] i y = refl
drop-set (a ∷ []) i y = refl
drop-set (a ∷ b ∷ xs) i y = refl

pub get_or-drop :
    (xs : List Xad) (i : ℕ) → get_or (drop 2 xs) i Xad.default ≡ get_or xs (suc (suc i)) Xad.default
get_or-drop [] i = refl
get_or-drop (a ∷ []) i = refl
get_or-drop (a ∷ b ∷ xs) i = refl

module _ (r : XtRoot) (m : ℕ) (hs : HasSlots r) (hm : m < 16) where
  room : m < length (drop 2 r.xad)
  room = omega (arith, length-drop 2 r.xad)

  -- the live entries after slot `m + 2` was written and made the last one
  pub live-set_last :
      (y : Xad) (n : ℕ)
      → n ≡ suc (suc (suc m))
      → live (XtRoot.set_nextindex n (XtRoot.set_slot (suc (suc m)) y r))
        ≡ take m (drop 2 r.xad) ++ (y ∷ [])
  live-set_last y n e =
      let count : min n 18 - 2 ≡ suc m = omega arith in
      rw (count, drop-set r.xad m y) (take-set_last m (drop 2 r.xad) y room)

  pub live-last :
      XtRoot.next_index r ≡ suc (suc (suc m))
      → live r ≡ take m (drop 2 r.xad) ++ (XtRoot.slot r (suc (suc m)) ∷ [])
  live-last e =
      let count : min (XtRoot.next_index r) 18 - 2 ≡ suc m = omega arith in
      rw count (
        take-last m (drop 2 r.xad) room
        ∙ ap (λ y. take m (drop 2 r.xad) ++ (y ∷ [])) (get_or-drop r.xad m))

block_in-fill :
    (b flag offset len addr : ℕ) (x : Xad)
    → IsNew offset len addr
    → block_in b (Xad.set_flag flag (fill offset len addr x) ∷ []) ≡ block_new offset len addr b
unfolding block_in
block_in-fill b flag offset len addr x n = ground (
  arith,
  XadFields.written offset len addr x,
  XadFields.offset-set_flag flag (fill offset len addr x),
  XadFields.length_of-set_flag flag (fill offset len addr x),
  XadFields.address-set_flag flag (fill offset len addr x),
)

-- What a write to slot `idx` by a new extent leaves.
abbrev appended : ℕ → XtRoot → ℕ → ℕ → ℕ → ℕ → Bool × XtRoot
appended flag r offset len addr idx = (
  true,
  XtRoot.set_nextindex (as_u16 idx + 1)
      (XtRoot.set_slot idx (Xad.set_flag flag (fill offset len addr (XtRoot.slot r idx))) r),
)

append_extent-appended :
    (flag : ℕ) (r : XtRoot) (offset len addr : ℕ)
    → 2 ≤ XtRoot.next_index r
    → XtRoot.next_index r < 18
    → append_extent flag r offset len addr
      ≡ appended flag r offset len addr (suc (suc (XtRoot.next_index r - 2)))
unfolding append_extent
append_extent-appended flag r offset len addr lo hi =
    rw (gt→leb 18 (XtRoot.next_index r) hi) (ap (appended flag r offset len addr) (ground arith))

pub append_extent-full :
    (flag : ℕ) (r : XtRoot) (offset len addr : ℕ)
    → 18 ≤ XtRoot.next_index r
    → append_extent flag r offset len addr ≡ (false, r)
unfolding append_extent
append_extent-full flag r offset len addr hi = rw (le→leb 18 (XtRoot.next_index r) hi)

-- The slots before the one written are the live ones.
pub live-append :
    (r : XtRoot) (y : Xad)
    → IsRoot r
    → XtRoot.next_index r < 18
    → let idx = suc (suc (XtRoot.next_index r - 2)) in
      live (XtRoot.set_nextindex (as_u16 idx + 1) (XtRoot.set_slot idx y r)) ≡ live r ++ (y ∷ [])
live-append r y w hi =
    let m = XtRoot.next_index r - 2 in
    live-set_last r m w.slots (omega arith) y (as_u16 (suc (suc m)) + 1) (omega arith)
    ∙ ap (λ k. take k (drop 2 r.xad) ++ (y ∷ [])) (omega arith)

-- With a free slot the new extent is mapped where nothing was mapped before and all else stays.
pub append_extent_free :
    (flag : ℕ) (r : XtRoot) (offset len addr b : ℕ)
    → IsRoot r
    → IsNew offset len addr
    → XtRoot.next_index r < 18
    → ((append_extent flag r offset len addr).0 ≡ true)
      × (block_of (append_extent flag r offset len addr).1 b
          ≡ or_else (block_of r b) (block_new offset len addr b))
unfolding block_of
append_extent_free flag r offset len addr b w n hi =
    let idx = suc (suc (XtRoot.next_index r - 2)) in
    let y = Xad.set_flag flag (fill offset len addr (XtRoot.slot r idx)) in
    rw (append_extent-appended flag r offset len addr w.next_low hi) (
      refl,
      rw (live-append r y w hi) (
          block_in-append b (live r) (y ∷ [])
          ∙ ap (or_else (block_in b (live r)))
              (block_in-fill b flag offset len addr (XtRoot.slot r idx) n)),
    )
