-- ===== src/Btree/Dtree.antt =====
-- src/btree/dtree.rs: the directory root that stands in the inode, on its bytes.
mod Tests
pub mod Lookup
pub mod Remove
use jfsfuse.Prelude.{
  ℕ, zero, suc, ◌+◌, ◌-◌, ◌*◌, ◌/◌, min, max, Bool, true, false, not, ◌&&◌, Option, none, some,
  List, [], ◌∷◌, ltb, leb, ◌==◌, if◌then◌else◌, tests, length, set, take, drop, replicate, as_u8,
  byte, read_u16, read_u32, u16_bytes, u32_bytes,
}

-- `DTROOTMAXSLOT`, `DTENTRYSTART`, `DTSLOTSIZE` of src/types.rs
abbrev pub max_slot : ℕ
max_slot = 9

abbrev pub entry_start : ℕ
entry_start = 1

abbrev pub slot_size : ℕ
slot_size = 32

-- `err` is a `StorageError`, `panic` an index out of bounds in a slice.
pub data Outcome {ℓ} (A : Type ℓ) : Type ℓ where
  ok : A → Outcome A
  err panic : Outcome A

pub record DirEntry : Type 0 where
  pub inumber : ℕ
  pub name : List ℕ
  pub index : ℕ

pub record Dtree : Type 0 where
  pub data_ : List ℕ
  pub block : ℕ

unfoldable pub from_inode_data : List ℕ → Outcome Dtree
from_inode_data b =
    if ltb (length b) (entry_start * slot_size)
    then Outcome.err
    else Outcome.ok (record { data_ = b; block = 0 })

abbrev pub next_index : List ℕ → ℕ
next_index d = if leb (length d) 17 then 0 else byte d 17

abbrev pub len_entries : Dtree → ℕ
len_entries t = next_index t.data_

-- The loop of `read_stbl`, with `count` entries left from `i` on.
unfoldable pub read_stbl_loop : ℕ → ℕ → List ℕ → List ℕ
read_stbl_loop zero i d = []
read_stbl_loop (suc count) i d =
    if leb (length d) (24 + i) then [] else byte d (24 + i) ∷ read_stbl_loop count (i + 1) d

unfoldable pub read_stbl : List ℕ → ℕ → List ℕ
unfolding read_stbl_loop
read_stbl d num_entries = read_stbl_loop (min num_entries 8) 0 d

-- `bytes_to_u16` of the `n` code units from an offset on
unfoldable pub units : ℕ → List ℕ → ℕ → List ℕ
units zero d offset = []
units (suc n) d offset = read_u16 d offset ∷ units n d (offset + 2)

abbrev pub name_len : List ℕ → ℕ → ℕ
name_len d offset = byte d (offset + 5)

-- What `lookup`, `entries` and `remove` take of a slot: `parse_ldt_entry`, and the name, which is
-- cut from all of the data and not from the slot.
abbrev pub dir_entry : List ℕ → ℕ → DirEntry
dir_entry d offset = record {
  inumber = read_u32 d offset;
  name = units (name_len d offset) d (offset + 6);
  index = read_u32 d (offset + 28);
}

-- the two tests that stand before the use of a slot
abbrev pub outside : List ℕ → ℕ → Bool
outside d slot = ltb (length d) (slot * slot_size + slot_size)

abbrev pub name_outside : List ℕ → ℕ → Bool
name_outside d slot = ltb (length d) (slot * slot_size + 6 + name_len d (slot * slot_size) * 2)

abbrev pub same_name : List ℕ → List ℕ → Bool
same_name [] [] = true
same_name [] (y ∷ ys) = false
same_name (x ∷ xs) [] = false
same_name (x ∷ xs) (y ∷ ys) = x == y && same_name xs ys

-- The loop of `lookup`, over the slots of the sorted table.
unfoldable pub lookup_loop : List ℕ → List ℕ → List ℕ → Outcome (Option DirEntry)
lookup_loop [] d name = Outcome.ok none
lookup_loop (slot ∷ slots) d name =
    let rest = lookup_loop slots d name in
    let e = dir_entry d (slot * slot_size) in
    if outside d slot
    then rest
    else if name_outside d slot
    then Outcome.panic
    else if same_name e.name name
    then Outcome.ok (some e)
    else rest

unfoldable pub lookup : Dtree → List ℕ → Outcome (Option DirEntry)
lookup t name =
    let num_entries = next_index t.data_ in
    if num_entries == 0
    then Outcome.ok none
    else lookup_loop (read_stbl t.data_ num_entries) t.data_ name

abbrev pub and_then {ℓ κ} : {A : Type ℓ} {B : Type κ} → Outcome A → (A → Outcome B) → Outcome B
and_then (Outcome.ok a) f = f a
and_then Outcome.err f = Outcome.err
and_then Outcome.panic f = Outcome.panic

unfoldable pub entries_loop : List ℕ → List ℕ → Outcome (List DirEntry)
entries_loop [] d = Outcome.ok []
entries_loop (slot ∷ slots) d =
    let rest = entries_loop slots d in
    if outside d slot
    then rest
    else if name_outside d slot
    then Outcome.panic
    else and_then rest (λ es. Outcome.ok (dir_entry d (slot * slot_size) ∷ es))

unfoldable pub entries : Dtree → Outcome (List DirEntry)
entries t = entries_loop (read_stbl t.data_ (next_index t.data_)) t.data_

-- The bytes written one after the other from an offset on.
unfoldable pub write_bytes : List ℕ → ℕ → List ℕ → List ℕ
write_bytes d offset [] = d
write_bytes d offset (b ∷ bs) = write_bytes (set d offset b) (offset + 1) bs

-- `write_u16` for each of at most `n` code units
unfoldable pub write_units : ℕ → List ℕ → ℕ → List ℕ → List ℕ
write_units zero d offset name = d
write_units (suc n) d offset [] = d
write_units (suc n) d offset (c ∷ cs) =
    write_units n (write_bytes d offset (u16_bytes c)) (offset + 2) cs

-- The slot for a new entry, and the data after it is taken from the free list.
unfoldable pub alloc_slot : List ℕ → ℕ → ℕ × List ℕ
alloc_slot d num_entries =
    let freecnt = if ltb 18 (length d) then byte d 18 else 0 in
    let freelist = if ltb 19 (length d) then byte d 19 else 0 in
    let next =
      if ltb (freelist * slot_size + 4) (length d) then byte d (freelist * slot_size + 4) else 0 in
    if ltb 0 freecnt && not (freelist == 0)
    then (freelist, set (set d 18 (freecnt - 1)) 19 next)
    else (min (num_entries + entry_start) (max_slot - 1), d)

unfoldable pub write_ldt_entry : List ℕ → ℕ → ℕ → List ℕ → ℕ → Outcome (List ℕ)
unfolding write_bytes write_units
write_ldt_entry d offset ino name index =
    if ltb (length d) (offset + slot_size)
    then Outcome.err
    else let d1 = write_bytes d offset (u32_bytes ino) in
      let d2 = set d1 (offset + 5) (min (length name) 11) in
      let d3 = write_units 11 d2 (offset + 6) name in
      Outcome.ok (write_bytes d3 (offset + 28) (u32_bytes index))

abbrev pub set_stbl_entry : List ℕ → ℕ → ℕ → Outcome (List ℕ)
set_stbl_entry d idx slot =
    if leb (length d) (24 + idx) then Outcome.err else Outcome.ok (set d (24 + idx) slot)

abbrev pub read_stbl_entry : List ℕ → ℕ → Outcome ℕ
read_stbl_entry d idx =
    if leb (length d) (24 + idx) then Outcome.err else Outcome.ok (byte d (24 + idx))

abbrev pub set_nextindex : List ℕ → ℕ → List ℕ
set_nextindex d val = if ltb 17 (length d) then set d 17 (as_u8 val) else d

-- The last steps of `insert`: the entry in its slot, then the table and the count. The data stay
-- as the failing step left them on an error.
unfoldable pub put_entry : List ℕ → ℕ → ℕ → List ℕ → ℕ → ℕ → Outcome Bool × List ℕ
put_entry d free_slot num_entries name ino index =
    elim (write_ldt_entry d (free_slot * slot_size) ino name index) [
      | Outcome.err ↦ (Outcome.err, d)
      | Outcome.panic ↦ (Outcome.panic, d)
      | Outcome.ok d1 ↦ elim (set_stbl_entry d1 num_entries (as_u8 free_slot)) [
        | Outcome.err ↦ (Outcome.err, d1)
        | Outcome.panic ↦ (Outcome.panic, d1)
        | Outcome.ok d2 ↦ (Outcome.ok true, set_nextindex d2 (num_entries + 1))
      ]
    ]

abbrev pub with_data : Dtree → List ℕ → Dtree
with_data t d = record t { data_ = d }

-- `insert` past the look-up of the name
unfoldable pub insert_new : Dtree → List ℕ → ℕ → ℕ → Outcome Bool × Dtree
insert_new t name ino index =
    let num_entries = next_index t.data_ in
    if leb (max_slot - 1) num_entries
    then (Outcome.ok false, t)
    else let (free_slot, d) = alloc_slot t.data_ num_entries in
      if leb max_slot free_slot
      then (Outcome.ok false, with_data t d)
      else let (r, d1) = put_entry d free_slot num_entries name ino index in (r, with_data t d1)

unfoldable pub insert : Dtree → List ℕ → ℕ → ℕ → Outcome Bool × Dtree
insert t name ino index = elim (lookup t name) [
  | Outcome.err ↦ (Outcome.err, t)
  | Outcome.panic ↦ (Outcome.panic, t)
  | Outcome.ok (some e) ↦ (Outcome.ok false, t)
  | Outcome.ok none ↦ insert_new t name ino index
]

-- `for j in stbl_idx..num_entries - 1`, with `count` moves left from `j` on; the result of
-- `set_stbl_entry` is dropped.
unfoldable pub shift_stbl : ℕ → ℕ → List ℕ → Outcome (Unit {0}) × List ℕ
shift_stbl zero j d = (Outcome.ok tt, d)
shift_stbl (suc count) j d = elim (read_stbl_entry d (j + 1)) [
  | Outcome.err ↦ (Outcome.err, d)
  | Outcome.panic ↦ (Outcome.panic, d)
  | Outcome.ok next_slot ↦
      shift_stbl count (j + 1) (if leb (length d) (24 + j) then d else set d (24 + j) next_slot)
]

-- What `remove` does to the data once it has found the name in the slot at `stbl_idx`.
unfoldable pub drop_entry : List ℕ → ℕ → ℕ → ℕ → ℕ → Outcome (Option ℕ) × List ℕ
drop_entry d num_entries stbl_idx slot ino =
    let (r, d1) = shift_stbl (num_entries - 1 - stbl_idx) stbl_idx d in
    elim r [
      | Outcome.err ↦ (Outcome.err, d1)
      | Outcome.panic ↦ (Outcome.panic, d1)
      | Outcome.ok u ↦
          let last = 24 + (num_entries - 1) in
          let d2 = if leb (length d1) last then d1 else set d1 last 0 in
          let d3 = set_nextindex d2 (num_entries - 1) in
          (
            Outcome.ok (some ino),
            if leb (slot * slot_size + slot_size) (length d3)
                then write_bytes d3 (slot * slot_size) (replicate slot_size 0)
                else d3,
          )
    ]

-- The loop of `remove`, over the slots of the sorted table from `stbl_idx` on.
unfoldable pub remove_loop : List ℕ → ℕ → List ℕ → ℕ → List ℕ → Outcome (Option ℕ) × List ℕ
remove_loop [] stbl_idx d num_entries name = (Outcome.ok none, d)
remove_loop (slot ∷ slots) stbl_idx d num_entries name =
    let rest = remove_loop slots (stbl_idx + 1) d num_entries name in
    let e = dir_entry d (slot * slot_size) in
    if outside d slot
    then rest
    else if name_outside d slot
    then (Outcome.panic, d)
    else if same_name e.name name
    then drop_entry d num_entries stbl_idx slot e.inumber
    else rest

unfoldable pub remove : Dtree → List ℕ → Outcome (Option ℕ) × Dtree
remove t name =
    let num_entries = next_index t.data_ in
    let (r, d) = remove_loop (read_stbl t.data_ num_entries) 0 t.data_ num_entries name in
    (r, with_data t d)
