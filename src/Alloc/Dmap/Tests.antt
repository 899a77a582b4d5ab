-- ===== src/Alloc/Dmap/Tests.antt =====
-- A map of six blocks, and the theorems on src/alloc/dmap.rs applied to it.
use jfsfuse.Prelude.{zero, suc, ◌≡◌, refl, true, false, some, [], ◌∷◌, arith, replicate}
use jfsfuse.Types.Pxd
use jfsfuse.Types.Pxd.{Pxd}
use jfsfuse.Alloc.Dmap.{
  BlockAllocMap, is_free, extent, mark, find_free_run, find_any_run, alloc_extent, free_extent,
  rollback,
}
use jfsfuse.Alloc.Dmap.Bits.{UsedRun, count_free}
use jfsfuse.Alloc.Dmap.Allocate.{IsCounted, AllocSpec, alloc_extent-AllocSpec}
use jfsfuse.Alloc.Dmap.Rollback.{Txn}
use jfsfuse.Alloc.Dmap.Restore.{rollback-Txn, alloc_free_rollback_leaks}
use jfsfuse.Alloc.Dmap.Pages.{parse_dmap_page, committed_page, parse_dmap_page-committed_page}

-- blocks 0 and 2 are in use
abbrev six_blocks : BlockAllocMap
six_blocks = record {
  mapsize = 6;
  nfree = 4;
  free_map = false ∷ true ∷ false ∷ true ∷ true ∷ true ∷ [];
  allocated = [];
  freed = [];
  dirty_pages = [];
}

six_IsCounted : IsCounted six_blocks
unfolding count_free
six_IsCounted = record { sized = refl; counted = refl }

two_used : UsedRun six_blocks.free_map 2 1
two_used zero h = refl
two_used (suc j) h = absurd (omega arith)

finds_run : find_free_run six_blocks 2 0 ≡ some 3
unfolding find_free_run
finds_run = refl

alloc_extent-AllocSpec_example : AllocSpec six_blocks 2 (alloc_extent six_blocks 2 0)
alloc_extent-AllocSpec_example = alloc_extent-AllocSpec six_blocks 2 0 six_IsCounted

-- The transaction allocates two blocks.
rollback-Txn_example :
    ((rollback (alloc_extent six_blocks 2 0).1).free_map ≡ six_blocks.free_map)
    × ((rollback (alloc_extent six_blocks 2 0).1).nfree ≡ 4)
    × ((rollback (alloc_extent six_blocks 2 0).1).allocated ≡ [])
    × ((rollback (alloc_extent six_blocks 2 0).1).freed ≡ [])
    × ((rollback (alloc_extent six_blocks 2 0).1).dirty_pages ≡ [])
rollback-Txn_example =
    rollback-Txn six_blocks (alloc_extent six_blocks 2 0).1 six_IsCounted (omega arith) (refl, refl)
      (Txn.allocates 2 0 Txn.began)

-- The two blocks from 3 on are allocated, freed, and the transaction is rolled back.
alloc_free_rollback_leaks_example :
    (is_free six_blocks.free_map 4 ≡ true)
    × (is_free (rollback (free_extent (alloc_extent six_blocks 2 0).1 (extent 3 2)).1).free_map 4
        ≡ false)
unfolding alloc_extent find_any_run find_free_run mark Pxd.address Pxd.length_of Pxd.set_length
    Pxd.set_address
alloc_free_rollback_leaks_example =
    alloc_free_rollback_leaks six_blocks (alloc_extent six_blocks 2 0).1 2 0 4 (extent 3 2)
      six_IsCounted (omega arith) (omega arith) (refl, refl) refl refl

parse_dmap_page-committed_page_example :
    parse_dmap_page (committed_page six_blocks 1 (replicate 8 0)) 0 (false ∷ [])
    ≡ parse_dmap_page (replicate 8 0) 0 (false ∷ [])
parse_dmap_page-committed_page_example =
    parse_dmap_page-committed_page six_blocks 1 0 (replicate 8 0) (false ∷ [])
