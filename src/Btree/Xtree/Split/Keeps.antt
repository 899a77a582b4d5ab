-- ===== src/Btree/Xtree/Split/Keeps.antt =====
-- A split leaves the block map as it was.
use jfsfuse.Prelude.{
  ℕ, zero, suc, ◌+◌, ◌-◌, ◌≤◌, ◌<◌, min, ◌≡◌, refl, sym, ap, ◌∙◌, inl, inr, ◌&&◌, none, some, List,
  [], ◌∷◌, ◌++◌, arith, ltb, leb, ◌==◌, if◌then◌else◌, Bool-cases, Option-cases, length, get_or,
  set, take, drop, All, length-set, as_u16, as_u32,
}
use jfsfuse.Types.Xad
use jfsfuse.Types.Xad.{Xad}
use jfsfuse.Types.Xad.Fields as XadFields
use jfsfuse.Types.XtRoot
use jfsfuse.Types.XtRoot.{XtRoot}
use jfsfuse.Btree.Xtree.{live, fill}
use jfsfuse.Btree.Xtree.Mapping.{block_in, block_of, block_in-append, IsBounded}
use jfsfuse.Btree.Xtree.Order.{
  IsOrdered, Validity, validate, validate-IsOrdered, block_in_below, any_entry_decides,
}
use jfsfuse.Btree.Xtree.Insert.{IsRoot, live-append, drop-set, get_or-drop}
use jfsfuse.Btree.Xtree.Split.{find_split, split_at_slot, split_extent}

-- What the search finds.
pub find_split_inside :
    (at i : ℕ) (xs : List Xad)
    → find_split at xs ≡ some i
    → (i < length xs)
      × (Xad.offset (get_or xs i Xad.default) < at)
      × (at < Xad.offset (get_or xs i Xad.default) + Xad.length_of (get_or xs i Xad.default))
unfolding find_split
find_split_inside at i [] h = cc
find_split_inside at zero (x ∷ xs) h = ground arith
find_split_inside at (suc i) (x ∷ xs) h =
    ground (arith, find_split_inside at i xs, Option-cases (find_split at xs))

abbrev pub shorten : ℕ → Xad → Xad
shorten at x = Xad.set_length (as_u32 (at - Xad.offset x)) x

-- Shortening one entry of an ordered list takes the blocks of its tail out of the block map.
block_in-shorten :
    (low at b i : ℕ) (xs : List Xad)
    → IsOrdered low xs
    → i < length xs
    → Xad.offset (get_or xs i Xad.default) < at
    → at < Xad.offset (get_or xs i Xad.default) + Xad.length_of (get_or xs i Xad.default)
    → let x = get_or xs i Xad.default in
      (low ≤ at)
      × (block_in b (set xs i (shorten at x))
          ≡ (if leb at b && ltb b (Xad.offset x + Xad.length_of x) then none else block_in b xs))
unfolding block_in
block_in-shorten low at b i [] o h l u = absurd (omega arith)
block_in-shorten low at b zero (x ∷ xs) (inl (z, o)) h l u = absurd (omega arith)
block_in-shorten low at b zero (x ∷ xs) (inr (p, q, o)) h l u = ground (
  arith,
  XadFields.length_of-lt x,
  XadFields.shortened (as_u32 (at - Xad.offset x)) x,
  block_in_below (Xad.offset x + Xad.length_of x) b xs o,
)
block_in-shorten low at b (suc i) (x ∷ xs) (inl (z, o)) h l u =
    ground (arith, block_in-shorten low at b i xs o (omega arith) l u)
block_in-shorten low at b (suc i) (x ∷ xs) (inr (p, q, o)) h l u =
    ground (arith, block_in-shorten (Xad.offset x + Xad.length_of x) at b i xs o (omega arith) l u)

take-set : (n i : ℕ) (xs : List Xad) (y : Xad) → take n (set xs i y) ≡ set (take n xs) i y
take-set zero i xs y = refl
take-set (suc n) i [] y = refl
take-set (suc n) zero (x ∷ xs) y = refl
take-set (suc n) (suc i) (x ∷ xs) y = ap (λ l. x ∷ l) (take-set n i xs y)

get_or-take :
    (n i : ℕ) (xs : List Xad)
    → i < length (take n xs)
    → get_or (take n xs) i Xad.default ≡ get_or xs i Xad.default
get_or-take zero i xs h = absurd (omega arith)
get_or-take (suc n) i [] h = refl
get_or-take (suc n) zero (x ∷ xs) h = refl
get_or-take (suc n) (suc i) (x ∷ xs) h = get_or-take n i xs (omega arith)

slot-live :
    (r : XtRoot) (i : ℕ)
    → i < length (live r)
    → XtRoot.slot r (2 + i) ≡ get_or (live r) i Xad.default
slot-live r i h =
    ap (XtRoot.slot r) (omega arith)
    ∙ sym (get_or-drop r.xad i)
    ∙ sym (get_or-take (min (XtRoot.next_index r) 18 - 2) i (drop 2 r.xad) h)

live-set_slot :
    (r : XtRoot) (i : ℕ) (y : Xad) → live (XtRoot.set_slot (2 + i) y r) ≡ set (live r) i y
live-set_slot r i y =
    let e : 2 + i ≡ suc (suc i) = omega arith in
    ap (λ k. live (XtRoot.set_slot k y r)) e
    ∙ rw (drop-set r.xad i y) (take-set (min (XtRoot.next_index r) 18 - 2) i (drop 2 r.xad) y)

live-append_next :
    (r : XtRoot) (y : Xad)
    → IsRoot r
    → XtRoot.next_index r < 18
    → live (
        XtRoot.set_nextindex
          (as_u16 (XtRoot.next_index r + 1))
          (XtRoot.set_slot (XtRoot.next_index r) y r))
      ≡ live r ++ (y ∷ [])
live-append_next r y w h =
    let n = XtRoot.next_index r in
    let idx = suc (suc (n - 2)) in
    ap (λ k. live (XtRoot.set_nextindex (as_u16 (n + 1)) (XtRoot.set_slot k y r))) (omega arith)
    ∙ ap (λ k. live (XtRoot.set_nextindex k (XtRoot.set_slot idx y r))) (omega arith)
    ∙ live-append r y w h

module _ (r : XtRoot) (at i : ℕ) (w : IsRoot r) (room : XtRoot.next_index r < 18)
    (inside : i < length (live r)) where
  abbrev pub split_entry : Xad
  split_entry = get_or (live r) i Xad.default

  abbrev pub shortened_root : XtRoot
  shortened_root = XtRoot.set_slot (2 + i) (shorten at split_entry) r

  abbrev pub split_tail : Xad
  split_tail =
      let keep_len = as_u32 (at - Xad.offset split_entry) in
      Xad.set_flag 0 (
        fill at (Xad.length_of split_entry - keep_len) (Xad.address split_entry + keep_len)
          (XtRoot.slot shortened_root (XtRoot.next_index r)))

  shortened_root-IsRoot : IsRoot shortened_root
  shortened_root-IsRoot = record {
    slots = length-set r.xad (2 + i) (shorten at split_entry) ∙ w.slots;
    next_low = w.next_low;
    next_high = w.next_high;
  }

  pub live-split_at_slot :
      live (split_at_slot r at (2 + i))
      ≡ set (live r) i (shorten at split_entry) ++ (split_tail ∷ [])
  unfolding split_at_slot
  live-split_at_slot = rw (slot-live r i inside) (
      live-append_next shortened_root split_tail shortened_root-IsRoot room
      ∙ ap (λ l. l ++ (split_tail ∷ [])) (live-set_slot r i (shorten at split_entry)))

All-get_or :
    (P : Xad → Type 0) (xs : List Xad) (i : ℕ)
    → All P xs
    → i < length xs
    → P (get_or xs i Xad.default)
All-get_or P [] i h l = absurd (omega arith)
All-get_or P (x ∷ xs) zero h l = h.0
All-get_or P (x ∷ xs) (suc i) h l = All-get_or P xs i h.1 (omega arith)

block_in-tail :
    (b at : ℕ) (x y : Xad)
    → IsBounded x
    → Xad.offset x < at
    → at < Xad.offset x + Xad.length_of x
    → let keep_len = as_u32 (at - Xad.offset x) in
      block_in b
        (Xad.set_flag 0 (fill at (Xad.length_of x - keep_len) (Xad.address x + keep_len) y) ∷ [])
      ≡ (if leb at b && ltb b (Xad.offset x + Xad.length_of x)
          then some (Xad.address x + (b - Xad.offset x))
          else none)
unfolding block_in
block_in-tail b at x y bx l u =
    let keep_len = as_u32 (at - Xad.offset x) in
    let z = fill at (Xad.length_of x - keep_len) (Xad.address x + keep_len) y in
    ground (
      arith,
      XadFields.length_of-lt x,
      XadFields.written at (Xad.length_of x - keep_len) (Xad.address x + keep_len) y,
      XadFields.offset-set_flag 0 z,
      XadFields.length_of-set_flag 0 z,
      XadFields.address-set_flag 0 z,
    )

block_of-split_at_slot :
    (r : XtRoot) (at i b : ℕ)
    → IsRoot r
    → XtRoot.next_index r < 18
    → All IsBounded (live r)
    → IsOrdered 0 (live r)
    → find_split at (live r) ≡ some i
    → block_of (split_at_slot r at (2 + i)) b ≡ block_of r b
unfolding block_of
block_of-split_at_slot r at i b w room bounded o found =
    let f = find_split_inside at i (live r) found in
    let bx = All-get_or IsBounded (live r) i bounded f.0 in
    let y = split_entry r at i w room f.0 in
    let t = split_tail r at i w room f.0 in
    let shorter = block_in-shorten 0 at b i (live r) o f.0 f.1 f.2 in
    rw (live-split_at_slot r at i w room f.0) (
      block_in-append b (set (live r) i (shorten at y)) (t ∷ [])
      ∙ ground (
        arith,
        shorter,
        any_entry_decides 0 b (live r) i o f.0,
        block_in-tail b at y (XtRoot.slot (shortened_root r at i w room f.0) (XtRoot.next_index r))
            bx f.1 f.2,
      ))

-- In a root with `nextindex` in bounds that passes `validate`, and whose live entries have
-- 40-bit ends, a split at any block leaves the physical block of every logical block as it was,
-- whether an entry is split or not.
pub block_of-split_extent :
    (r : XtRoot) (at b : ℕ)
    → IsRoot r
    → All IsBounded (live r)
    → validate r ≡ Validity.valid
    → block_of (split_extent r at).1 b ≡ block_of r b
unfolding split_extent
block_of-split_extent r at b w bounded v = elim (Bool-cases (at == 0)) [
  | inl z ↦ rw z refl
  | inr nz ↦ elim (Option-cases (find_split at (live r))) [
    | inl e ↦ rw (nz, e) refl
    | inr (i, e) ↦ elim (Bool-cases (ltb 18 (XtRoot.next_index r + 1))) [
      | inl full ↦ rw (nz, e, full) refl
      | inr free ↦
          rw (nz, e, free)
            (block_of-split_at_slot r at i b w (ground arith) bounded ((validate-IsOrdered r).0 v)
              e)
    ]
  ]
]
