-- ===== src/Volume.antt =====
-- The transactions of a volume in src/volume.rs: the transaction manager, the page cache, the log and
-- the block map together. Of the volume's superblock only the state is held.
mod Tests
pub mod Abort
pub mod Step
pub mod Inode
pub mod Files
pub mod Dirs
pub mod Unlink
pub mod Rename
pub mod Write
pub mod Copy
pub mod Operations
pub mod InodePage
pub mod Xattr
use jfsfuse.Prelude.{
  ℕ, ◌+◌, ◌-◌, ◌/◌, ap, Bool, true, false, not, Option, none, some, List, map, ltb, leb, ◌==◌,
  if◌then◌else◌, length, get_or, set, take, drop, All, as_u32, byte,
}
use jfsfuse.Types.LogSuper
use jfsfuse.Types.LogSuper.{LogSuper, logredone, logmagic, logversion}
use jfsfuse.Storage.Trait.{Storage, Read}
use jfsfuse.Storage.Lru.{LruCache}
use jfsfuse.Storage.Cache
use jfsfuse.Storage.Cache.{CachedPage, PageCache}
use jfsfuse.Journal.Manager
use jfsfuse.Journal.Manager.{LogManager}
use jfsfuse.Journal.Recovery
use jfsfuse.Journal.Tracker.{fm_clean}
use jfsfuse.Alloc.Dmap
use jfsfuse.Alloc.Dmap.{BlockAllocMap}
use jfsfuse.Alloc.Dmap.Pages
use jfsfuse.Transaction
use jfsfuse.Transaction.{TransactionManager, Committed}

pub record Volume (C : Type 0) : Type 0 where
  pub s_state : ℕ
  pub log : Option LogManager
  pub tx_mgr : TransactionManager
  pub page_cache : PageCache C
  pub bmap : Option BlockAllocMap

-- `SUPER1_OFF` and `PSIZE`
abbrev pub super1_off : ℕ
super1_off = 32768

abbrev pub psize : ℕ
psize = 4096

-- `Dinode::size()`
abbrev pub dinode_size : ℕ
dinode_size = 512

-- The bytes of an inode in its page, changed by `update`.
abbrev pub update_inode : ℕ → (List ℕ → List ℕ) → CachedPage → CachedPage
update_inode page_offset update p =
    if leb (page_offset + dinode_size) (length p.data_)
    then record p {
      data_ =
          Manager.copy_slice p.data_ page_offset
            (update (take dinode_size (drop page_offset p.data_)));
    }
    else p

module _ {C : Type 0} (lru : LruCache CachedPage C) where
  abbrev pub begin_transaction : Volume C → Option ℕ × Volume C
  begin_transaction v =
      let (txid, tm) = Transaction.begin v.tx_mgr in (txid, record v { tx_mgr = tm })

  unfoldable pub mark_page_dirty : Volume C → ℕ → ℕ → Bool × Volume C
  mark_page_dirty v inode block =
      let (fine, tm, pc) = Transaction.mark_dirty lru v.tx_mgr v.page_cache inode block in
      (fine, record v { tx_mgr = tm; page_cache = pc })

  unfoldable pub abort_transaction : Volume C → Volume C
  abort_transaction v =
      let bmap : Option BlockAllocMap = elim v.bmap [
        | none ↦ none
        | some a ↦ some (Dmap.rollback a)
      ] in
      let (tm, pc) = Transaction.abort lru v.tx_mgr v.page_cache in
      record v { bmap = bmap; tx_mgr = tm; page_cache = pc }

  module _ {S : Type 0} (storage log_storage : Storage S) (dmap_start : ℕ) where
    -- `bmap.commit()?` where there is a map
    unfoldable pub commit_bmap : S → Volume C → Bool × S × Volume C
    commit_bmap s v = elim v.bmap [
      | none ↦ (true, s, v)
      | some a ↦
          let (fine, t, b) = Pages.commit storage dmap_start a s in
          (fine, t, record v { bmap = some b })
    ]

    -- The pages of the map are written after the transaction is done: where they fail, the answer is
    -- an error.
    unfoldable pub commit_transaction : S → Volume C → Committed × S × Volume C
    unfolding commit_bmap
    commit_transaction s v =
        let (result, tm, t, pc, jm) =
          Transaction.commit lru storage log_storage v.tx_mgr s v.page_cache v.log in
        let done = record v { tx_mgr = tm; page_cache = pc; log = jm } in
        let (fine, u, w) = commit_bmap t done in
        elim result [
          | Committed.failed ↦ (Committed.failed, t, done)
          | Committed.panicked ↦ (Committed.panicked, t, done)
          | Committed.committed n txid ↦
              if fine then (Committed.committed n txid, u, w) else (Committed.failed, u, w)
        ]

    unfoldable pub update_inode_page :
        S → Volume C → ℕ → ℕ → ℕ → (List ℕ → List ℕ) → Bool × Volume C
    update_inode_page s v ino page_block page_offset update =
        let loaded = (Cache.get_or_load storage lru v.page_cache s ino page_block 0).1 in
        let (found, changed) =
          Cache.get_mut_for_write lru loaded ino page_block (update_inode page_offset update) in
        if found
        then (true, record v { page_cache = Cache.unpin_page lru changed ino page_block })
        else (false, record v { page_cache = loaded })

    -- `log.sync()?` where there is a log
    abbrev pub sync_log : S → Volume C → Bool × S
    sync_log s v = elim v.log [ none ↦ (true, s) | some lm ↦ log_storage.sync s ]

    unfoldable pub sync : S → Volume C → Committed × S × Volume C
    unfolding commit_transaction commit_bmap
    sync s v =
        let (flushed, s1, pc) = Cache.flush_all storage lru v.page_cache s in
        let cleaned = record v { page_cache = pc } in
        let (how, s2, v2) : Committed × S × Volume C =
          if Transaction.has_active_transaction v.tx_mgr
          then commit_transaction s1 cleaned
          else (Committed.committed 0 0, s1, cleaned) in
        let (logged, s3) = sync_log s2 v2 in
        let (mapped, s4, v4) = commit_bmap s3 v2 in
        let (synced, s5) = storage.sync s4 in
        let rest : Committed × S × Volume C =
          if not logged
          then (Committed.failed, s3, v2)
          else if not mapped
          then (Committed.failed, s4, v4)
          else (if synced then Committed.committed 0 0 else Committed.failed, s5, v4) in
        if not flushed then (Committed.failed, s1, cleaned) else elim how [
          | Committed.failed ↦ (Committed.failed, s2, v2)
          | Committed.panicked ↦ (Committed.panicked, s2, v2)
          | Committed.committed n txid ↦ rest
        ]

    -- A page shorter than 44 bytes makes the code panic.
    unfoldable pub set_fs_state : S → Volume C → ℕ → Committed × S × Volume C
    set_fs_state s v state = elim (storage.read_bytes s super1_off psize) [
      | Read.unexpected_eof ↦ (Committed.failed, s, v)
      | Read.failed ↦ (Committed.failed, s, v)
      | Read.bytes d ↦
          let (wrote, t) = storage.write_bytes s super1_off (Pages.write_u32 d 40 state) in
          let (flushed, u) = storage.flush_metadata t in
          if ltb (length d) 44
          then (Committed.panicked, s, v)
          else if not wrote
          then (Committed.failed, t, v)
          else if not flushed
          then (Committed.failed, u, v)
          else (Committed.committed 0 0, u, record v { s_state = as_u32 state })
    ]

    unfoldable pub umount : S → Volume C → Committed × S × Volume C
    unfolding commit_bmap set_fs_state
    umount s v =
        let (flushed, s1, pc) = Cache.flush_all storage lru v.page_cache s in
        let cleaned = record v { page_cache = pc } in
        let (logged, s2) = sync_log s1 cleaned in
        let (mapped, s3, v3) = commit_bmap s2 cleaned in
        if not flushed
        then (Committed.failed, s1, cleaned)
        else if not logged
        then (Committed.failed, s2, cleaned)
        else if not mapped
        then (Committed.failed, s3, v3)
        else set_fs_state s3 v3 fm_clean

    -- `init_log`, with the log's place in the storage
    unfoldable pub init_log : S → Volume C → ℕ → Bool × Volume C
    init_log s v log_base = elim (Manager.read_super log_storage s log_base) [
      | none ↦ (false, v)
      | some logsuper ↦
          if not (logsuper.magic == logmagic)
          then (false, v)
          else if not (logsuper.version == logversion)
          then (false, v)
          else (true, record v { log = some (Manager.new logsuper log_base) })
    ]

    -- The manager's own copy of the superblock is not changed.
    unfoldable pub recover_journal : S → Volume C → Bool × S
    recover_journal s v = elim v.log [
      | none ↦ (true, s)
      | some lm ↦
          let (fine, t, r) =
            Recovery.replay storage log_storage (Recovery.new lm.logsuper) s
              (Manager.data_start lm) in
          let (stored, u) = Manager.write_super log_storage t lm (Recovery.finalize r) in
          let (synced, w) = log_storage.sync u in
          if lm.logsuper.state == logredone
          then (true, s)
          else if not fine
          then (false, t)
          else if not stored
          then (false, u)
          else (synced, w)
    ]
