-- ===== src/Storage/Cache.antt =====
-- `CachedPage` and `PageCache` of src/storage/mod.rs, and its `ConsistencyChecker`.
pub mod Evict
mod Tests
use jfsfuse.Prelude.{
  ℕ, zero, ◌+◌, ◌-◌, ◌/◌, ◌%◌, ◌^◌, min, ap, Bool, true, false, not, ◌&&◌, ◌||◌, Option, none, some,
  List, [], ◌∷◌, ◌++◌, map, ltb, leb, ◌==◌, if◌then◌else◌, length, get_or, set, take, drop, retain,
  any, u32_mod, byte, u16_bytes, u32_bytes,
}
use jfsfuse.Storage.Trait.{Storage}
use jfsfuse.Storage.Lru.{LruCache, contains}

pub record CachedPage : Type 0 where
  pub block : ℕ
  pub data_ : List ℕ
  pub dirty : Bool
  pub inode : Option ℕ
  pub index : ℕ
  pub pin_count : ℕ
  pub txid : ℕ

-- `CachedPage::new`
abbrev pub new_page : ℕ → List ℕ → CachedPage
new_page block d = record {
  block = block;
  data_ = d;
  dirty = false;
  inode = none;
  index = 0;
  pin_count = 0;
  txid = 0;
}

abbrev pub mark_page_dirty : CachedPage → CachedPage
mark_page_dirty p = record p { dirty = true }

abbrev pub mark_page_dirty_txn : ℕ → CachedPage → CachedPage
mark_page_dirty_txn txid p = record p { dirty = true; txid = txid }

-- the two operations saturate
abbrev pub pin : CachedPage → CachedPage
pin p = record p { pin_count = min (p.pin_count + 1) (u32_mod - 1) }

abbrev pub unpin : CachedPage → CachedPage
unpin p = record p { pin_count = p.pin_count - 1 }

abbrev pub is_pinned : CachedPage → Bool
is_pinned p = ltb 0 p.pin_count

abbrev pub clean_page : CachedPage → CachedPage
clean_page p = record p { dirty = false; txid = 0 }

-- The `write_u16_le` family: the bytes of a number over those at an offset, in a page that becomes
-- dirty, or nothing where the code panics.
abbrev pub write_le : ℕ → List ℕ → CachedPage → Option CachedPage
write_le offset d p =
    if ltb (length p.data_) (offset + length d)
    then none
    else some (record p {
      data_ = take offset p.data_ ++ d ++ drop (offset + length d) p.data_;
      dirty = true;
    })

abbrev pub write_u16_le : ℕ → ℕ → CachedPage → Option CachedPage
write_u16_le offset val p = write_le offset (u16_bytes val) p

abbrev pub write_u32_le : ℕ → ℕ → CachedPage → Option CachedPage
write_u32_le offset val p = write_le offset (u32_bytes val) p

abbrev pub write_u64_le : ℕ → ℕ → CachedPage → Option CachedPage
write_u64_le offset val p = write_le offset (u32_bytes (val % 2 ^ 32) ++ u32_bytes (val / 2 ^ 32)) p

-- `p.inode == Some(inode)` and `p.inode.unwrap_or(0)`
abbrev pub is_owner : ℕ → Option ℕ → Bool
is_owner i none = false
is_owner i (some j) = j == i

abbrev pub or_zero : Option ℕ → ℕ
or_zero none = 0
or_zero (some i) = i

pub record PageCache (C : Type 0) : Type 0 where
  pub capacity : ℕ
  pub cache : C

module _ {S C : Type 0} (storage : Storage S) (lru : LruCache CachedPage C) where
  -- The writes of a flush.
  unfoldable pub write_pages : List (ℕ × ℕ × List ℕ) → S → Bool × S
  write_pages [] s = (true, s)
  write_pages ((inode, block, d) ∷ pages) s =
      let (fine, t) = storage.write_block s block d in
      let rest = write_pages pages t in if fine then rest else (false, t)

  -- The pages of a flush are clean, and of no transaction.
  unfoldable pub clean_pages : List (ℕ × ℕ × List ℕ) → C → C
  clean_pages [] c = c
  clean_pages ((inode, block, d) ∷ pages) c =
      clean_pages pages (lru.change c (inode, block) clean_page)

  unfoldable pub flush_inode : PageCache C → S → ℕ → Bool × S × PageCache C
  unfolding write_pages clean_pages
  flush_inode pc s inode =
      let owned = retain (λ e. e.1.dirty && is_owner inode e.1.inode) (lru.iter pc.cache) in
      let dirty_pages = map (λ e. (inode, e.1.block, e.1.data_)) owned in
      let (fine, t) = write_pages dirty_pages s in
      if fine
      then (true, t, record pc { cache = clean_pages dirty_pages pc.cache })
      else (false, t, pc)

  unfoldable pub flush_all : PageCache C → S → Bool × S × PageCache C
  unfolding write_pages clean_pages
  flush_all pc s =
      let dirty = retain (λ e. e.1.dirty) (lru.iter pc.cache) in
      let dirty_pages = map (λ e. (or_zero e.1.inode, e.1.block, e.1.data_)) dirty in
      let (fine, t) = write_pages dirty_pages s in
      if fine
      then (true, t, record pc { cache = clean_pages dirty_pages pc.cache })
      else (false, t, pc)

  -- The first other entry of the block, in the order of the container.
  abbrev pub sibling : ℕ → ℕ → List ((ℕ × ℕ) × CachedPage) → Option (List ℕ)
  sibling inode block [] = none
  sibling inode block (((i, b), p) ∷ es) =
      if (b == block) && not (i == inode) then some p.data_ else sibling inode block es

  -- A block that cannot be read is a page without bytes.
  unfoldable pub get_or_load : PageCache C → S → ℕ → ℕ → ℕ → CachedPage × PageCache C
  get_or_load pc s inode block index = elim (lru.peek pc.cache (inode, block)) [
    | some page ↦ (page, record pc { cache = lru.touch pc.cache (inode, block) })
    | none ↦
        let d : List ℕ = elim (sibling inode block (lru.iter pc.cache)) [
          | some d ↦ d
          | none ↦ elim (storage.read_block s block) [ some d ↦ d | none ↦ [] ]
        ] in
        let page = record (new_page block d) { inode = some inode; index = index } in
        (page, record pc { cache = lru.put pc.cache (inode, block) page })
  ]

module _ {C : Type 0} (lru : LruCache CachedPage C) where
  abbrev pub get : PageCache C → ℕ → ℕ → Option CachedPage × PageCache C
  get pc inode block =
      (lru.peek pc.cache (inode, block), record pc { cache = lru.touch pc.cache (inode, block) })

  abbrev pub peek : PageCache C → ℕ → ℕ → Option CachedPage
  peek pc inode block = lru.peek pc.cache (inode, block)

  abbrev pub peek_in : ℕ → List ((ℕ × ℕ) × CachedPage) → Option CachedPage
  peek_in block [] = none
  peek_in block (((i, b), p) ∷ es) = if b == block then some p else peek_in block es

  abbrev pub peek_block : PageCache C → ℕ → Option CachedPage
  peek_block pc block = peek_in block (lru.iter pc.cache)

  -- The page is pinned, and changed by what the caller does with it.
  unfoldable pub get_mut_for_write :
      PageCache C → ℕ → ℕ → (CachedPage → CachedPage) → Bool × PageCache C
  get_mut_for_write pc inode block f =
      if contains lru pc.cache (inode, block)
      then (true, record pc { cache = lru.change pc.cache (inode, block) (λ p. f (pin p)) })
      else (false, pc)

  abbrev pub unpin_page : PageCache C → ℕ → ℕ → PageCache C
  unpin_page pc inode block = record pc { cache = lru.change pc.cache (inode, block) unpin }

  -- The entry under `key`, unless another one that is dirty or pinned had to go for it.
  unfoldable pub put_at : PageCache C → ℕ × ℕ → CachedPage → Bool × PageCache C
  put_at pc key page =
      let held : Bool = elim (lru.peek_lru pc.cache) [
        | none ↦ false
        | some (k, v) ↦ v.dirty || ltb 0 v.pin_count
      ] in
      if not (contains lru pc.cache key) && leb (lru.cap pc.cache) (lru.len pc.cache) && held
      then (false, pc)
      else (true, record pc { cache = lru.put pc.cache key page })

  abbrev pub put : PageCache C → ℕ → CachedPage → Bool × PageCache C
  put pc inode page = put_at pc (inode, page.block) page

  abbrev pub put_block : PageCache C → ℕ → CachedPage → Bool × PageCache C
  put_block pc block page = put_at pc (0, block) page

  abbrev pub mark_dirty : PageCache C → ℕ → ℕ → PageCache C
  mark_dirty pc inode block = record pc {
    cache = lru.change pc.cache (inode, block) mark_page_dirty;
  }

  abbrev pub mark_dirty_txn : PageCache C → ℕ → ℕ → ℕ → PageCache C
  mark_dirty_txn pc inode block txid = record pc {
    cache = lru.change pc.cache (inode, block) (mark_page_dirty_txn txid);
  }

  abbrev pub release : PageCache C → ℕ → ℕ → PageCache C
  release pc inode block = record pc { cache = lru.pop pc.cache (inode, block) }

  abbrev pub pop_all : List ((ℕ × ℕ) × CachedPage) → C → C
  pop_all [] c = c
  pop_all ((k, p) ∷ es) c = pop_all es (lru.pop c k)

  unfoldable pub evict : PageCache C → ℕ → PageCache C
  evict pc inode = record pc {
    cache = pop_all (retain (λ e. e.0.0 == inode) (lru.iter pc.cache)) pc.cache;
  }

  abbrev pub clear : PageCache C → PageCache C
  clear pc = record pc { cache = lru.clear pc.cache }

  abbrev pub has_dirty : PageCache C → Bool
  has_dirty pc = any (λ e. e.1.dirty) (lru.iter pc.cache)

  abbrev pub has_pinned : PageCache C → Bool
  has_pinned pc = any (λ e. ltb 0 e.1.pin_count) (lru.iter pc.cache)

  -- Whether the assertions of `ConsistencyChecker` hold.
  abbrev pub check_idle : PageCache C → Bool
  check_idle pc = not (has_dirty pc) && not (has_pinned pc)

  abbrev pub check_in_transaction : PageCache C → Bool
  check_in_transaction pc =
      length (retain (λ e. e.1.dirty && (e.1.pin_count == 0)) (lru.iter pc.cache)) == 0

  abbrev pub check_post_commit : PageCache C → Bool
  check_post_commit pc = not (has_dirty pc) && not (has_pinned pc)
