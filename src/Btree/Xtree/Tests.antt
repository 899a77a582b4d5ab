-- ===== src/Btree/Xtree/Tests.antt =====
-- Small extent roots, and the theorems on src/btree/xtree.rs applied to them.
use jfsfuse.Prelude.{
  ℕ, zero, suc, ◌+◌, ◌≡◌, refl, ap, ◌∙◌, ◌≢◌, ◌↔◌, true, none, some, [], ◌∷◌, arith, replicate, any,
  All,
}
use jfsfuse.Types.Pxd
use jfsfuse.Types.Pxd.{Pxd}
use jfsfuse.Types.Xad
use jfsfuse.Types.Xad.{Xad}
use jfsfuse.Types.XtRoot
use jfsfuse.Types.XtRoot.{XtRoot, HasSlots}
use jfsfuse.Btree.Xtree.Bytes.{from_inode_data, to_bytes, from_inode_data-to_bytes}
use jfsfuse.Btree.Xtree.{live, lookup, map_blocks}
use jfsfuse.Btree.Xtree.Mapping.{block_of, in_range, holds_from, holds_between, IsBounded}
use jfsfuse.Btree.Xtree.Order.{Validity, validate, IsOrdered, validate-IsOrdered}
use jfsfuse.Btree.Xtree.Blocks.{located, AllMapped, located-map_blocks}
use jfsfuse.Btree.Xtree.Insert.{IsRoot}
use jfsfuse.Btree.Xtree.Range.{truncate_extents, punch_extents, take_extents}
use jfsfuse.Btree.Xtree.Range.Truncate.{block_of-truncate_extents, freed-truncate_extents}
use jfsfuse.Btree.Xtree.Range.Punch.{
  block_of-punch_extents, freed-punch_extents, punch_extents-aliases,
}
use jfsfuse.Btree.Xtree.Range.Take.{block_taken, block_of-take_extents}
use jfsfuse.Btree.Xtree.Split.{split_extent}
use jfsfuse.Btree.Xtree.Split.Keeps.{block_of-split_extent}

abbrev an_entry : ℕ → ℕ → ℕ → Xad
an_entry off len addr = record {
  flag = 0;
  rsvrd = 0;
  off1 = 0;
  off2 = off;
  loc = record { len_addr = len; addr2 = addr };
}

-- blocks 0 to 3 at 100, blocks 10 to 14 at 200
abbrev first_entry : Xad
first_entry = an_entry 0 4 100

abbrev second_entry : Xad
second_entry = an_entry 10 5 200

abbrev two_entries : XtRoot
two_entries =
    XtRoot.set_nextindex 4
      (XtRoot.set_slot 3 second_entry (XtRoot.set_slot 2 first_entry XtRoot.default))

-- the last extent has 2^24 - 1 blocks
abbrev full_entry : XtRoot
full_entry = XtRoot.set_nextindex 3 (XtRoot.set_slot 2 (an_entry 0 16777215 100) XtRoot.default)

first-IsBounded : IsBounded first_entry
unfolding Xad.offset Xad.length_of Xad.address Pxd.length_of Pxd.address
first-IsBounded = record { offset_end = omega arith; address_end = omega arith }

second-IsBounded : IsBounded second_entry
unfolding Xad.offset Xad.length_of Xad.address Pxd.length_of Pxd.address
second-IsBounded = record { offset_end = omega arith; address_end = omega arith }

both-IsBounded : All IsBounded (live two_entries)
both-IsBounded = (first-IsBounded, (second-IsBounded, tt))

two_IsRoot : IsRoot two_entries
two_IsRoot = record { slots = refl; next_low = omega arith; next_high = omega arith }

full_IsRoot : IsRoot full_entry
full_IsRoot = record { slots = refl; next_low = omega arith; next_high = omega arith }

two_valid : validate two_entries ≡ Validity.valid
unfolding validate Xad.offset Xad.length_of Pxd.length_of
two_valid = refl

finds :
    (lookup two_entries 12 ≡ some (record { offset = 10; length = 5; address = 200; flags = 0 }))
    × (lookup two_entries 5 ≡ none)
unfolding lookup Xad.offset Xad.length_of Xad.address Pxd.length_of Pxd.address
finds = (refl, refl)

maps : map_blocks two_entries 12 3 ≡ (202, 3) ∷ []
unfolding map_blocks lookup Xad.offset Xad.length_of Xad.address Pxd.length_of Pxd.address
maps = refl

block_of-truncate_extents_example :
    block_of (truncate_extents two_entries 3).0 2 ≡ block_of two_entries 2
block_of-truncate_extents_example = block_of-truncate_extents two_entries 3 2 refl

freed-truncate_extents_example :
    any (in_range 203) (truncate_extents two_entries 12).1
    ≡ any (holds_from 12 203) (live two_entries)
freed-truncate_extents_example = freed-truncate_extents two_entries 12 203

block_of-punch_extents_example :
    block_of (punch_extents two_entries 2 11).0 12 ≡ block_of two_entries 12
unfolding Xad.offset Xad.length_of Pxd.length_of
block_of-punch_extents_example =
    block_of-punch_extents two_entries 2 11 refl (omega arith) (omega arith) 12
      ((first-IsBounded, refl), ((second-IsBounded, refl), tt))

freed-punch_extents_example :
    any (in_range 102) (punch_extents two_entries 2 11).1
    ≡ any (holds_between 2 11 102) (live two_entries)
freed-punch_extents_example = freed-punch_extents two_entries 2 11 102 (omega arith) both-IsBounded

-- A hole of blocks 1 and 2 in the first extent: block 3 comes to lie where block 1 was.
punch_extents-aliases_example :
    (block_of (punch_extents two_entries 1 3).0 (3 + 0) ≡ block_of two_entries (1 + 0))
    × (block_of two_entries (3 + 0) ≢ block_of two_entries (1 + 0))
    × (any (in_range 101) (punch_extents two_entries 1 3).1 ≡ true)
    × (block_of two_entries (1 + 0) ≡ some 101)
unfolding Xad.offset Xad.length_of Xad.address Pxd.length_of Pxd.address
punch_extents-aliases_example =
    punch_extents-aliases two_entries 1 3 refl (omega arith) (omega arith) first_entry
      (second_entry ∷ []) 0 refl first-IsBounded refl (omega arith) (omega arith)

block_of-take_extents_example :
    (block_of (take_extents two_entries 1 12).0 11 ≡ none)
    × (block_taken 11 (take_extents two_entries 1 12).1 ≡ block_of two_entries 11)
unfolding Xad.offset Xad.length_of Pxd.length_of
block_of-take_extents_example =
    block_of-take_extents two_entries 1 12 11 refl both-IsBounded (omega arith) (omega arith)

block_ten : block_of two_entries 10 ≡ some 200
unfolding block_of Xad.offset Xad.length_of Xad.address Pxd.length_of Pxd.address
block_ten = refl

ten_mapped : AllMapped two_entries 10 0
ten_mapped j h e =
    let at : 10 + j ≡ 10 = omega arith in
    let same : block_of two_entries (10 + j) ≡ some 200 =
      ap (block_of two_entries) at ∙ block_ten in
    ground (arith, same, e)

located-map_blocks_example : located (map_blocks two_entries 10 3) 0 ≡ block_of two_entries (10 + 0)
located-map_blocks_example =
    located-map_blocks two_entries 10 3 0 two_valid (omega arith) ten_mapped

validate-IsOrdered_example :
    (validate two_entries ≡ Validity.valid) ↔ IsOrdered 0 (live two_entries)
validate-IsOrdered_example = validate-IsOrdered two_entries

block_of-split_extent_example :
    block_of (split_extent two_entries 12).1 13 ≡ block_of two_entries 13
block_of-split_extent_example =
    block_of-split_extent two_entries 12 13 two_IsRoot both-IsBounded two_valid

-- a root with one entry, and the empty slots behind it
abbrev one_entry : Xad
one_entry = record {
  flag = 1;
  rsvrd = 0;
  off1 = 0;
  off2 = 7;
  loc = record { len_addr = 3; addr2 = 40 };
}

abbrev stored_root : XtRoot
stored_root = record {
  header = record XtRoot.default.header { nextindex = 3 };
  xad = Xad.default ∷ Xad.default ∷ one_entry ∷ replicate 15 Xad.default;
}

empty_slots-IsWords : (n : ℕ) → All Xad.IsWords (replicate n Xad.default)
empty_slots-IsWords zero = tt
empty_slots-IsWords (suc n) = (
  record {
    flag_u8 = omega arith;
    rsvrd_u16 = omega arith;
    off1_u8 = omega arith;
    off2_u32 = omega arith;
    loc_words = record { len_addr_u32 = omega arith; addr2_u32 = omega arith };
  },
  empty_slots-IsWords n,
)

from_inode_data-to_bytes_example : from_inode_data (to_bytes stored_root) ≡ some stored_root
from_inode_data-to_bytes_example =
    from_inode_data-to_bytes stored_root refl
      (record {
        next_u64 = omega arith;
        prev_u64 = omega arith;
        flag_u8 = omega arith;
        rsrvd1_u8 = omega arith;
        nextindex_u16 = omega arith;
        maxentry_u16 = omega arith;
        rsrvd2_u16 = omega arith;
        self_pxd_words = record { len_addr_u32 = omega arith; addr2_u32 = omega arith };
      })
      refl
      (
        record {
          flag_u8 = omega arith;
          rsvrd_u16 = omega arith;
          off1_u8 = omega arith;
          off2_u32 = omega arith;
          loc_words = record { len_addr_u32 = omega arith; addr2_u32 = omega arith };
        },
        empty_slots-IsWords 15,
      )
