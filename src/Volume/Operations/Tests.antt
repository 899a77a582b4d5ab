-- ===== src/Volume/Operations/Tests.antt =====
-- The operations of src/volume.rs, and the inodes of src/inode.rs, on a concrete volume.
use jfsfuse.Prelude.{
  ℕ, ◌≡◌, refl, none, some, List, [], ◌∷◌, arith, if◌then◌else◌, ◌==◌, replicate, put_u32,
  put_bytes, All, zero, suc,
}
use jfsfuse.Storage.Sample
use jfsfuse.Storage.Sample.{empty_world, store, two_entries}
use jfsfuse.Storage.Cache
use jfsfuse.Storage.Cache.{CachedPage}
use jfsfuse.Transaction
use jfsfuse.Types.Xad
use jfsfuse.Types.XtRoot
use jfsfuse.Types.Dinode.{Dinode, fields, parse_dinode, root_bytes}
use jfsfuse.Volume.Dirs.{put_symlink, link_target}
use jfsfuse.Volume.Dirs.Symlink.{link_target-put_symlink}
use jfsfuse.Volume
use jfsfuse.Volume.{Volume}
use jfsfuse.Volume.Files
use jfsfuse.Volume.Inode
use jfsfuse.Volume.Step
use jfsfuse.Volume.Step.{Answer, VolumeError, Device, World, ◌>>=◌, ◌>>◌}
use jfsfuse.Volume.Inode.{find_inode_page, scan_table, scan_page, table_page, inode_page}
use jfsfuse.Volume.Inode.Scan.{IsTarget}
use jfsfuse.Volume.Inode.Find.{Searched, find_inode_page-Searched}
use jfsfuse.Volume.Files.{put_attributes, put_truncated}
use jfsfuse.Volume.Files.Truncated.{resized, parse_dinode-put_truncated}
use jfsfuse.Btree.Xtree.Bytes.{from_inode_data}
use jfsfuse.Volume.Files.Attributes.{ModeAfter, parse_dinode-put_attributes}
use jfsfuse.Volume.Operations.{Op, run, run_all}
use jfsfuse.Volume.Operations.Ready.{run-in_progress, run_all-begin_transaction}

abbrev Entries : Type 0
Entries = List ((ℕ × ℕ) × CachedPage)

abbrev dev : Device Sample.World Entries
dev = record {
  lru = two_entries;
  storage = store;
  log_storage = store;
  dmap_start = 1;
  table_start = 4;
  table_len = 2;
  agg_size = 50;
}

abbrev idle_volume : Volume Entries
idle_volume = record {
  s_state = 0;
  log = none;
  tx_mgr = record { next_txid = 5; active = none; last_committed = 4 };
  page_cache = record { capacity = 2; cache = [] };
  bmap = none;
}

abbrev txn : Transaction.ActiveTxn
txn = record { txid = 4; dirty_pages = []; allocated = []; freed = [] }

-- inode 16, a page of its own, in the second block of the table
abbrev blocks : ℕ → List ℕ
blocks b = if b == 5 then put_u32 (replicate 512 0) 4 16 else replicate 4096 0

abbrev idle : World Sample.World Entries
idle = record {
  store = record empty_world { blocks = blocks };
  volume = idle_volume;
  open_handles = λ b. none;
  signals = [];
}

abbrev busy : World Sample.World Entries
busy = record idle {
  volume = record idle_volume { tx_mgr = record (idle_volume.tx_mgr) { active = some txn } };
}

run-in_progress_example :
    run dev (Op.mkdir 2 (97 ∷ [])) busy ≡ (Answer.err VolumeError.in_progress, busy)
run-in_progress_example = run-in_progress dev (Op.mkdir 2 (97 ∷ [])) busy txn refl refl

find_inode_page-Searched_example : Searched dev (16, 0) idle 4 38 (find_inode_page dev 16 idle)
find_inode_page-Searched_example = find_inode_page-Searched dev 16 16 0 idle IsTarget.of_filesystem

parse_dinode-put_attributes_example :
    (m : ℕ) × ModeAfter (some 420) 16843009 m
    × (parse_dinode (put_attributes (some 420) (some 7) none (some 9) none (replicate 512 1))
        ≡ some (record (fields (replicate 512 1)) {
          mode = m;
          uid = 7;
          atime = record { tv_sec = 9; tv_nsec = 0 };
        }))
parse_dinode-put_attributes_example =
    parse_dinode-put_attributes (some 420) (some 7) none (some 9) none (replicate 512 1) refl
      (omega arith) tt

find_16 : find_inode_page dev 16 idle ≡ Answer.ok (5, 0)
unfolding find_inode_page scan_table scan_page table_page put_bytes
find_16 = refl

abbrev mode_and_sync : List Op
mode_and_sync = Op.setattr 16 (some 420) none none none none ∷ Op.fsync 16 ∷ []

run_all-begin_transaction_example :
    (Step.begin_transaction dev (run_all dev mode_and_sync idle).1).0
    ≡ Answer.ok (run_all dev mode_and_sync idle).1.volume.tx_mgr.next_txid
unfolding run_all run ◌>>=◌ ◌>>◌ Files.setattr Files.fsync put_attributes Inode.read find_inode_page
    scan_table scan_page table_page inode_page parse_dinode put_bytes Step.begin_transaction
    Step.update_inode_page Step.mark_page_dirty Step.commit_transaction Step.flush_data
    Step.flush_metadata Volume.mark_page_dirty Volume.commit_transaction Volume.commit_bmap
    Volume.update_inode_page Transaction.begin Cache.get_mut_for_write Cache.get_or_load
    Transaction.mark_dirty Transaction.commit
run_all-begin_transaction_example = run_all-begin_transaction dev mode_and_sync idle refl refl

-- A symbolic link, and its target.
link_target-put_symlink_example :
    (i : Dinode) × (parse_dinode (put_symlink 17 (47 ∷ 97 ∷ []) (replicate 512 0)) ≡ some i)
    × (link_target (record { dinode = i; ino = 17; page_block = 5; page_offset = 512 })
        ≡ Answer.ok (47 ∷ 97 ∷ []))
link_target-put_symlink_example =
    link_target-put_symlink 17 (47 ∷ 97 ∷ []) (replicate 512 0) 5 512 refl (omega arith)
      (omega arith) (omega arith)

slots-IsWords : (n : ℕ) → All Xad.IsWords (replicate n Xad.default)
slots-IsWords zero = tt
slots-IsWords (suc n) = (
  record {
    flag_u8 = omega arith;
    rsvrd_u16 = omega arith;
    off1_u8 = omega arith;
    off2_u32 = omega arith;
    loc_words = record { len_addr_u32 = omega arith; addr2_u32 = omega arith };
  },
  slots-IsWords n,
)

parse_dinode-put_truncated_example :
    (parse_dinode (put_truncated XtRoot.default 5000 2 (replicate 512 3))
      ≡ some (resized XtRoot.default 5000 2 (fields (replicate 512 3))))
    × (from_inode_data (root_bytes (resized XtRoot.default 5000 2 (fields (replicate 512 3))))
        ≡ some XtRoot.default)
parse_dinode-put_truncated_example =
    parse_dinode-put_truncated XtRoot.default 5000 2 (replicate 512 3) refl refl
      (record {
        next_u64 = omega arith;
        prev_u64 = omega arith;
        flag_u8 = omega arith;
        rsrvd1_u8 = omega arith;
        nextindex_u16 = omega arith;
        maxentry_u16 = omega arith;
        rsrvd2_u16 = omega arith;
        self_pxd_words = record { len_addr_u32 = omega arith; addr2_u32 = omega arith };
      })
      refl (slots-IsWords 16) (omega arith) (omega arith)
