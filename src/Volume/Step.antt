-- ===== src/Volume/Step.antt =====
-- What the operations of `Volume` in src/volume.rs are made of: the state that they share, the ways
-- they end, and the calls that most of them make.
pub mod Settled
use jfsfuse.Prelude.{
  ℕ, zero, suc, ◌+◌, ◌-◌, ◌*◌, ap, Bool, true, false, Option, none, some, List, [], ◌∷◌,
  if◌then◌else◌,
}
use jfsfuse.Types.Pxd
use jfsfuse.Types.Pxd.{Pxd}
use jfsfuse.Storage.Trait.{Storage}
use jfsfuse.Storage.Lru.{LruCache}
use jfsfuse.Storage.Cache.{CachedPage}
use jfsfuse.Alloc.Dmap
use jfsfuse.Alloc.Dmap.{BlockAllocMap}
use jfsfuse.Transaction.{Committed}
use jfsfuse.Btree.Dtree
use jfsfuse.Volume
use jfsfuse.Volume.{Volume}

-- The errors that the operations tell apart; `failed` is an error of the storage, the cache, the
-- allocator or the transaction, `other` a `StorageError::Other`, and `inode_not_found` the one of
-- `find_inode_page`.
pub data VolumeError : Type 0 where
  in_progress failed inode_not_found no_free_inode : VolumeError
  invalid_name invalid_file_type already_exists not_found : VolumeError
  not_a_directory directory_not_empty cannot_link_dir : VolumeError
  not_supported interrupted other : VolumeError

-- `panicked` is an index out of bounds, or an overflow that the checks of a debug build find.
pub data Answer {ℓ} (A : Type ℓ) : Type ℓ where
  ok : A → Answer A
  err : VolumeError → Answer A
  panicked : Answer A

-- `open_handles` counts open handles by the block of the inode's page; `signals` is what the next
-- checks of the request's interrupt flag read.
pub record World (S C : Type 0) : Type 0 where
  pub store : S
  pub volume : Volume C
  pub open_handles : ℕ → Option ℕ
  pub signals : List Bool

-- What a volume keeps from its start on: its stores, the container of its cache, and the place of
-- the block map, of the inode table (`s_ait2`) and of the end of the aggregate.
pub record Device (S C : Type 0) : Type 0 where
  pub lru : LruCache CachedPage C
  pub storage : Storage S
  pub log_storage : Storage S
  pub dmap_start : ℕ
  pub table_start : ℕ
  pub table_len : ℕ
  pub agg_size : ℕ

-- an operation, with its answer and the state that it leaves
abbrev pub M : Type 0 → Type 0 → Type 0 → Type 0
M S C A = World S C → Answer A × World S C

abbrev pub pure : {S C A : Type 0} → A → M S C A
pure a w = (Answer.ok a, w)

-- the answer of a part that has no state
abbrev pub lift : {S C A : Type 0} → Answer A → M S C A
lift a w = (a, w)

abbrev pub continue :
    {S C A B : Type 0} → (A → M S C B) → Answer A × World S C → Answer B × World S C
continue f (Answer.ok a, w) = f a w
continue f (Answer.err e, w) = (Answer.err e, w)
continue f (Answer.panicked, w) = (Answer.panicked, w)

infixl 5 ◌>>=◌ ◌>>◌
-- `?` after a step: its state stays, whatever it answers.
unfoldable pub ◌>>=◌ : {S C A B : Type 0} → M S C A → (A → M S C B) → M S C B
◌>>=◌ m f w = continue f (m w)

unfoldable pub ◌>>◌ : {S C B : Type 0} → M S C (Unit {0}) → M S C B → M S C B
unfolding ◌>>=◌
m >> k = m >>= λ _. k

abbrev pub of_dtree : {A : Type 0} → Dtree.Outcome A → Answer A
of_dtree (Dtree.Outcome.ok a) = Answer.ok a
of_dtree Dtree.Outcome.err = Answer.err VolumeError.other
of_dtree Dtree.Outcome.panic = Answer.panicked

abbrev pub of_bool : Bool → Answer (Unit {0})
of_bool b = if b then Answer.ok tt else Answer.err VolumeError.failed

abbrev pub of_committed : Committed → Answer (Unit {0})
of_committed (Committed.committed n txid) = Answer.ok tt
of_committed Committed.failed = Answer.err VolumeError.failed
of_committed Committed.panicked = Answer.panicked

-- The descriptor that the callers of `free_extent` build.
abbrev pub pxd_of : ℕ × ℕ → Pxd
pxd_of (addr, len) = Pxd.set_address addr (Pxd.set_length len Pxd.default)

-- The loop `let _ = bmap.free_extent(&pxd)`, whose errors are dropped.
unfoldable pub free_all : List (ℕ × ℕ) → BlockAllocMap → BlockAllocMap
free_all [] a = a
free_all (e ∷ es) a = free_all es (Dmap.free_extent a (pxd_of e)).1

-- `check(token)?`
unfoldable pub check : {S C : Type 0} → M S C (Unit {0})
check w = elim w.signals [
  | [] ↦ (Answer.ok tt, w)
  | b ∷ bs ↦
      (if b then Answer.err VolumeError.interrupted else Answer.ok tt, record w { signals = bs })
]

-- The frees of a list of extents, where there is a map.
unfoldable pub free_blocks : {S C : Type 0} → List (ℕ × ℕ) → M S C (Unit {0})
unfolding free_all
free_blocks es w = elim w.volume.bmap [
  | none ↦ (Answer.ok tt, w)
  | some a ↦ (Answer.ok tt, record w { volume = record (w.volume) { bmap = some (free_all es a) } })
]

module _ {S C : Type 0} (dev : Device S C) where
  unfoldable pub begin_transaction : M S C ℕ
  begin_transaction w =
      let (txid, v) = Volume.begin_transaction dev.lru w.volume in
      elim txid [
        | none ↦ (Answer.err VolumeError.in_progress, record w { volume = v })
        | some t ↦ (Answer.ok t, record w { volume = v })
      ]

  unfoldable pub abort_transaction : M S C (Unit {0})
  abort_transaction w =
      (Answer.ok tt, record w { volume = Volume.abort_transaction dev.lru w.volume })

  -- `self.abort_transaction(); return Err(e)`
  unfoldable pub abort_with : {A : Type 0} → Answer A → M S C A
  unfolding abort_transaction
  abort_with a = abort_transaction >> lift a

  unfoldable pub commit_transaction : M S C (Unit {0})
  commit_transaction w =
      let (how, t, v) =
        Volume.commit_transaction dev.lru dev.storage dev.log_storage dev.dmap_start w.store
          w.volume in
      (of_committed how, record w { store = t; volume = v })

  unfoldable pub mark_page_dirty : ℕ → ℕ → M S C (Unit {0})
  mark_page_dirty ino block w =
      let (fine, v) = Volume.mark_page_dirty dev.lru w.volume ino block in
      (of_bool fine, record w { volume = v })

  unfoldable pub update_inode_page : ℕ → ℕ → ℕ → (List ℕ → List ℕ) → M S C (Unit {0})
  update_inode_page ino block offset update w =
      let (fine, v) =
        Volume.update_inode_page dev.lru dev.storage dev.log_storage dev.dmap_start w.store w.volume
          ino block offset update in
      (of_bool fine, record w { volume = v })

  unfoldable pub read_block : ℕ → M S C (List ℕ)
  read_block block w = elim (dev.storage.read_block w.store block) [
    | none ↦ (Answer.err VolumeError.failed, w)
    | some d ↦ (Answer.ok d, w)
  ]

  unfoldable pub write_block : ℕ → List ℕ → M S C (Unit {0})
  write_block block d w =
      let (fine, t) = dev.storage.write_block w.store block d in
      (of_bool fine, record w { store = t })

  unfoldable pub flush_data : M S C (Unit {0})
  flush_data w =
      let (fine, t) = dev.storage.flush_data w.store in (of_bool fine, record w { store = t })

  unfoldable pub flush_metadata : M S C (Unit {0})
  flush_metadata w =
      let (fine, t) = dev.storage.flush_metadata w.store in (of_bool fine, record w { store = t })
