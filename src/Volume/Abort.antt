-- ===== src/Volume/Abort.antt =====
-- What an abort in src/volume.rs restores: the block map, and not the cached pages.
use jfsfuse.Prelude.{ℕ, ◌^◌, ◌<◌, ◌≡◌, refl, none, some, []}
use jfsfuse.Storage.Lru
use jfsfuse.Storage.Lru.{LruCache}
use jfsfuse.Storage.Cache.{CachedPage}
use jfsfuse.Alloc.Dmap
use jfsfuse.Alloc.Dmap.{BlockAllocMap}
use jfsfuse.Alloc.Dmap.Allocate.{IsCounted}
use jfsfuse.Alloc.Dmap.Rollback.{Txn}
use jfsfuse.Alloc.Dmap.Restore.{rollback-Txn}
use jfsfuse.Transaction.Abort.{view, IsKeyed, view-abort}
use jfsfuse.Volume.{Volume, abort_transaction}

module _ {C : Type 0} (lru : LruCache CachedPage C) (law : Lru.IsLawful lru) where
  -- With a lawful container, pages under their own blocks, and a block map at which allocations
  -- and frees of blocks in use arrived from one with its free blocks counted, no records and
  -- fewer than 2^32 blocks: an abort leaves no active transaction and rolls the map back to the
  -- bitmap that it had, but every cached page keeps the block and the data that it had, those
  -- that the transaction changed as well.
  pub view-abort_transaction :
      (v : Volume C) (a b : BlockAllocMap) (q : ℕ × ℕ)
      → IsCounted a
      → a.mapsize < 2 ^ 32
      → (a.allocated ≡ []) × (a.freed ≡ [])
      → Txn a b
      → v.bmap ≡ some b
      → IsKeyed lru law v.page_cache.cache
      → ((abort_transaction lru v).tx_mgr.active ≡ none)
        × ((abort_transaction lru v).bmap ≡ some (Dmap.rollback b))
        × ((Dmap.rollback b).free_map ≡ a.free_map)
        × (view lru law (abort_transaction lru v).page_cache.cache q
            ≡ view lru law v.page_cache.cache q)
  unfolding abort_transaction
  view-abort_transaction v a b q counted small start t map_ keyed =
      let (idle, same) = view-abort lru law v.tx_mgr v.page_cache q keyed in
      (idle, rw map_ refl, (rollback-Txn a b counted small start t).0, same)
