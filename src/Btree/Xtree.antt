-- ===== src/Btree/Xtree.antt =====
-- `Xtree` of src/btree/xtree.rs: the file's block map as a list of extent entries in the inode.
-- Logical offsets and range ends are `i64` in the code; its callers compute them from unsigned
-- file offsets, and they are natural numbers here.
mod Tests
pub mod Mapping
pub mod Bytes
pub mod Order
pub mod Blocks
pub mod Insert
pub mod Range
pub mod Split
pub mod Read
use jfsfuse.Prelude.{
  ℕ, zero, suc, ◌+◌, ◌-◌, ◌%◌, ◌^◌, min, Bool, true, false, not, ◌&&◌, ◌||◌, Option, none, some,
  List, [], ◌∷◌, map, ltb, leb, ◌==◌, if◌then◌else◌, take, drop, retain, as_u16, as_u32,
}
use jfsfuse.Types.Xad
use jfsfuse.Types.Xad.{Xad}
use jfsfuse.Types.XtRoot
use jfsfuse.Types.XtRoot.{XtRoot, xtrootmaxslot, xtentrystart}

pub record Extent : Type 0 where
  pub offset : ℕ
  pub length : ℕ
  pub address : ℕ
  pub flags : ℕ

-- `for i in XTENTRYSTART..next_idx` with the break at `XTROOTMAXSLOT`: the entries that the loops
-- visit, in order.
abbrev pub live : XtRoot → List Xad
live r = take (min (XtRoot.next_index r) xtrootmaxslot - xtentrystart) (drop xtentrystart r.xad)

-- `XadFlag::from_bits_truncate` keeps the five flag bits.
abbrev pub extent_of : Xad → Extent
extent_of x = record {
  offset = Xad.offset x;
  length = Xad.length_of x;
  address = Xad.address x;
  flags = x.flag % 2 ^ 5;
}

abbrev pub covers : ℕ → Xad → Bool
covers b x = leb (Xad.offset x) b && ltb b (Xad.offset x + Xad.length_of x)

unfoldable pub lookup_in : ℕ → List Xad → Option Extent
lookup_in b [] = none
lookup_in b (x ∷ xs) = if covers b x then some (extent_of x) else lookup_in b xs

unfoldable pub lookup : XtRoot → ℕ → Option Extent
unfolding lookup_in
lookup r b = lookup_in b (live r)

-- The loop of `map_blocks`, with a bound on its rounds.
unfoldable pub map_loop : ℕ → XtRoot → ℕ → ℕ → List (ℕ × ℕ)
map_loop zero r current end = []
map_loop (suc fuel) r current end = elim (ltb current end) [
  | false ↦ []
  | true ↦ elim (lookup r current) [
    | none ↦ (0, end - current) ∷ []
    | some e ↦
        let rel = current - e.offset in
        let n = min (e.length - rel) (end - current) in
        (e.address + rel, n) ∷ map_loop fuel r (current + n) end
  ]
]

-- A round takes a block at least, so `count` rounds are enough.
unfoldable pub map_blocks : XtRoot → ℕ → ℕ → List (ℕ × ℕ)
unfolding map_loop
map_blocks r offset count = map_loop count r offset (offset + count)

unfoldable pub iter_extents : XtRoot → List Extent
iter_extents r = map extent_of (retain (λ x. not (Xad.length_of x == 0)) (live r))

-- The four writes to a slot that a new extent makes.
abbrev pub fill : ℕ → ℕ → ℕ → Xad → Xad
fill offset len addr x = Xad.set_address addr (Xad.set_length len (Xad.set_offset offset x))

-- The tail that `insert_extent` and `insert_taken_extent` share: a new slot, with its flag.
unfoldable pub append_extent : ℕ → XtRoot → ℕ → ℕ → ℕ → Bool × XtRoot
append_extent flag r offset len addr =
    let next = XtRoot.next_index r in
    let idx = if leb next xtentrystart then xtentrystart else next in
    if leb xtrootmaxslot next then (false, r) else (
      true,
      XtRoot.set_nextindex (as_u16 idx + 1)
          (XtRoot.set_slot idx (Xad.set_flag flag (fill offset len addr (XtRoot.slot r idx))) r),
    )

-- `Some(last)` is the contiguous case, which only grows the last extent.
unfoldable pub insert_extent : XtRoot → ℕ → ℕ → ℕ → Bool × XtRoot
unfolding append_extent
insert_extent r offset len addr =
    let next = XtRoot.next_index r in
    let last = XtRoot.slot r (next - 1) in
    let last_length = Xad.length_of last in
    if ltb xtentrystart next && leb xtrootmaxslot (next - 1)
    then (false, r)
    else if ltb xtentrystart next
        && (Xad.offset last + last_length == offset)
        && (Xad.address last + last_length == addr)
    then (true, XtRoot.set_slot (next - 1) (Xad.set_length (as_u32 (last_length + len)) last) r)
    else append_extent Xad.xad_new r offset len addr

unfoldable pub insert_taken_extent : XtRoot → ℕ → ℕ → ℕ → Bool × XtRoot
unfolding append_extent
insert_taken_extent r offset len addr = append_extent 0 r offset len addr

unfoldable pub set_extent : XtRoot → ℕ → ℕ → ℕ → ℕ → Bool × XtRoot
set_extent r idx offset len addr =
    if ltb idx xtentrystart || leb xtrootmaxslot idx then (false, r) else (
      true,
      XtRoot.set_slot idx (Xad.set_flag Xad.xad_new (fill offset len addr (XtRoot.slot r idx))) r,
    )
