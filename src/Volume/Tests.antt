-- ===== src/Volume/Tests.antt =====
-- The transactions of src/volume.rs on a concrete volume.
use jfsfuse.Prelude.{
  ℕ, ◌≡◌, refl, sym, ap, ◌∙◌, inl, inr, true, false, none, some, List, [], ◌∷◌, arith, Bool-cases,
  some_injective, replicate, zero, suc, byte, length, ◌+◌, ◌-◌, ◌<◌, if◌then◌else◌,
  length-replicate, Bool,
}
use jfsfuse.Storage.Lru.{same_key, same_key→≡}
use jfsfuse.Storage.Sample.{empty_world, store, two_entries, two_entries-IsLawful}
use jfsfuse.Storage.Cache.{CachedPage, new_page}
use jfsfuse.Alloc.Dmap
use jfsfuse.Alloc.Dmap.{BlockAllocMap, alloc_extent}
use jfsfuse.Alloc.Dmap.Bits.{count_free}
use jfsfuse.Alloc.Dmap.Allocate.{IsCounted}
use jfsfuse.Alloc.Dmap.Rollback.{Txn}
use jfsfuse.Transaction.Abort.{view}
use jfsfuse.Volume.{Volume, abort_transaction, update_inode_page}
use jfsfuse.Volume.Abort.{view-abort_transaction}
use jfsfuse.Volume.Xattr.{
  InodeEa, find_xattr, parse_loop, parse_xattr_list, read_inline_xattr_data, set_list,
  write_replaced, xattr_entry,
}
use jfsfuse.Volume.Xattr.RoundTrip.{find_xattr-set_list}
use jfsfuse.Volume.InodePage.{in_inode, peek-update_inode_page}

-- block 0 is in use
abbrev three_blocks : BlockAllocMap
three_blocks = record {
  mapsize = 3;
  nfree = 2;
  free_map = false ∷ true ∷ true ∷ [];
  allocated = [];
  freed = [];
  dirty_pages = [];
}

three_IsCounted : IsCounted three_blocks
unfolding count_free
three_IsCounted = record { sized = refl; counted = refl }

abbrev changed_page : CachedPage
changed_page = record (new_page 3 (9 ∷ [])) { dirty = true; txid = 1; pin_count = 1 }

-- The transaction has allocated a block and changed the page of block 3.
abbrev volume : Volume (List ((ℕ × ℕ) × CachedPage))
volume = record {
  s_state = 2;
  log = none;
  tx_mgr = record {
    next_txid = 2;
    active = some (record { txid = 1; dirty_pages = (7, 3) ∷ []; allocated = []; freed = [] });
    last_committed = 0;
  };
  page_cache = record { capacity = 2; cache = ((7, 3), changed_page) ∷ [] };
  bmap = some (alloc_extent three_blocks 1 0).1;
}

volume-IsKeyed :
    (q : ℕ × ℕ) (p : CachedPage)
    → two_entries.peek volume.page_cache.cache q ≡ some p
    → p.block ≡ q.1
volume-IsKeyed q p h = elim (Bool-cases (same_key q (7, 3))) [
  | inl y ↦
      ap (λ z. z.block) (sym (some_injective (rw y at h)))
      ∙ sym (ap (λ z. z.1) (same_key→≡ q (7, 3) y))
  | inr n ↦ absurd (ground (arith, rw n at h))
]

view-abort_transaction_example :
    ((abort_transaction two_entries volume).tx_mgr.active ≡ none)
    × ((abort_transaction two_entries volume).bmap
        ≡ some (Dmap.rollback (alloc_extent three_blocks 1 0).1))
    × ((Dmap.rollback (alloc_extent three_blocks 1 0).1).free_map ≡ three_blocks.free_map)
    × (view two_entries two_entries-IsLawful
          (abort_transaction two_entries volume).page_cache.cache
          (7, 3)
        ≡ some (3, 9 ∷ []))
view-abort_transaction_example =
    view-abort_transaction two_entries two_entries-IsLawful volume three_blocks
      (alloc_extent three_blocks 1 0).1 (7, 3) three_IsCounted (omega arith) (refl, refl)
      (Txn.allocates 1 0 Txn.began) refl volume-IsKeyed

-- A page of two inodes; the bytes of the second are all set to 5.
abbrev inode_page : CachedPage
inode_page = new_page 3 (replicate 1024 7)

abbrev loaded : Volume (List ((ℕ × ℕ) × CachedPage))
loaded = record volume { page_cache = record { capacity = 2; cache = ((7, 3), inode_page) ∷ [] } }

byte-replicate : (n a k : ℕ) → k < n → byte (replicate n a) k ≡ a
byte-replicate zero a k h = absurd (omega arith)
byte-replicate (suc n) a zero h = refl
byte-replicate (suc n) a (suc k) h = byte-replicate n a k (omega arith)

abbrev fives : List ℕ → List ℕ
fives d = replicate 512 5

abbrev changed_volume : Bool × Volume (List ((ℕ × ℕ) × CachedPage))
changed_volume = update_inode_page two_entries store store 1 empty_world loaded 7 3 512 fives

peek-update_inode_page_example :
    (changed_volume.0 ≡ true)
    × (d : List ℕ) × ((q : ℕ × ℕ)
        → two_entries.peek changed_volume.1.page_cache.cache q ≡ (
            if same_key q (7, 3)
            then some (record inode_page { data_ = d })
            else two_entries.peek loaded.page_cache.cache q))
    × (length d ≡ length (replicate {A = ℕ} 1024 7))
    × ((i : ℕ)
        → byte d i ≡ (
            if in_inode (length (replicate {A = ℕ} 1024 7)) 512 i
            then byte (replicate 512 5) (i - 512)
            else byte (replicate 1024 7) i))
peek-update_inode_page_example =
    peek-update_inode_page two_entries two_entries-IsLawful store store 1 empty_world loaded 7 3 512
      fives inode_page (replicate 512 7) refl (omega arith) (length-replicate {A = ℕ} 512 7)
      (λ k h. byte-replicate 512 7 k h ∙ sym (byte-replicate 1024 7 (512 + k) (omega arith)))
      (length-replicate {A = ℕ} 512 5)

-- an inode with one attribute, of one byte
abbrev attributes : InodeEa
attributes = record {
  flag = 64;
  ea_length = 6;
  u = 1 ∷ 0 ∷ 1 ∷ 0 ∷ 65 ∷ 9 ∷ 0 ∷ 0 ∷ [];
  page_block = 3;
  page_offset = 0;
}

find_xattr-set_list_example :
    find_xattr (65 ∷ []) (parse_xattr_list (1 ∷ 0 ∷ 2 ∷ 0 ∷ 65 ∷ 7 ∷ 8 ∷ [])) ≡ some (7 ∷ 8 ∷ [])
unfolding set_list parse_xattr_list parse_loop read_inline_xattr_data write_replaced xattr_entry
find_xattr-set_list_example =
    find_xattr-set_list attributes (65 ∷ []) (7 ∷ 8 ∷ []) (65 ∷ [])
      (1 ∷ 0 ∷ 2 ∷ 0 ∷ 65 ∷ 7 ∷ 8 ∷ []) 0 ((omega arith, omega arith), tt) refl
