-- ===== src/Btree/Dtree/Tests.antt =====
-- A directory root with one entry, and the theorems on src/btree/dtree.rs applied to it.
use jfsfuse.Prelude.{◌≡◌, refl, none, some, [], ◌∷◌, arith, set, replicate}
use jfsfuse.Btree.Dtree.{
  Outcome, DirEntry, Dtree, lookup, lookup_loop, entries, entries_loop, insert, insert_new,
  put_entry, alloc_slot, write_ldt_entry, remove, remove_loop, drop_entry, shift_stbl, write_bytes,
  read_stbl, units,
}
use jfsfuse.Btree.Dtree.Lookup.{lookup-entries}
use jfsfuse.Btree.Dtree.Remove.{RemoveSpec, remove-lookup}

-- inode 42 under the name "ab", in slot 1
abbrev one_entry : Dtree
one_entry = record {
  data_ = set (set (set (set (set (set (replicate 288 0) 17 1) 24 1) 32 42) 37 2) 38 97) 40 98;
  block = 0;
}

abbrev the_entry : DirEntry
the_entry = record { inumber = 42; name = 97 ∷ 98 ∷ []; index = 0 }

lists : entries one_entry ≡ Outcome.ok (the_entry ∷ [])
unfolding entries entries_loop read_stbl units
lists = refl

-- a name is found after it is inserted
inserts :
    lookup (insert one_entry (99 ∷ []) 43 0).1 (99 ∷ [])
    ≡ Outcome.ok (some (record { inumber = 43; name = 99 ∷ []; index = 0 }))
unfolding lookup lookup_loop insert insert_new put_entry alloc_slot write_ldt_entry read_stbl units
inserts = refl

-- With a second entry in slot 2 and the first one removed, a third entry is put in slot 2 again:
-- the name of the second is gone.
abbrev after_three : Dtree
after_three =
    (insert (remove (insert one_entry (99 ∷ []) 43 0).1 (97 ∷ 98 ∷ [])).1 (100 ∷ []) 44 0).1

overwrites :
    (lookup after_three (99 ∷ []) ≡ Outcome.ok none)
    × (entries after_three
        ≡ Outcome.ok (
            record { inumber = 44; name = 100 ∷ []; index = 0 }
            ∷ record { inumber = 44; name = 100 ∷ []; index = 0 }
            ∷ []))
unfolding lookup lookup_loop entries entries_loop insert insert_new put_entry alloc_slot
    write_ldt_entry remove remove_loop drop_entry shift_stbl write_bytes read_stbl units
overwrites = (refl, refl)

lookup-entries_example : lookup one_entry (97 ∷ 98 ∷ []) ≡ Outcome.ok (some the_entry)
lookup-entries_example = lookup-entries one_entry (97 ∷ 98 ∷ []) (the_entry ∷ []) lists

remove-lookup_example : RemoveSpec one_entry (97 ∷ 98 ∷ [])
unfolding read_stbl
remove-lookup_example =
    remove-lookup one_entry (97 ∷ 98 ∷ []) (omega arith) (omega arith) (omega arith, tt)
