-- ===== src/Transaction/Tests.antt =====
-- The transaction manager of src/transaction.rs on a concrete store and cache.
use jfsfuse.Prelude.{ℕ, ◌≡◌, refl, ◌≢◌, inr, true, false, Option, some, List, [], ◌∷◌, arith}
use jfsfuse.Types.Lrd
use jfsfuse.Types.Pxd
use jfsfuse.Types.LogSuper.{LogSuper}
use jfsfuse.Storage.Trait.{Storage}
use jfsfuse.Storage.Sample.{
  World, empty_world, store, store-IsLawful, two_entries, two_entries-IsLawful,
}
use jfsfuse.Storage.Cache.{CachedPage, PageCache, new_page}
use jfsfuse.Journal.Manager
use jfsfuse.Journal.Manager.{LogManager}
use jfsfuse.Transaction.{TransactionManager, ActiveTxn, Committed, commit, log_pages}
use jfsfuse.Transaction.Commit.{commit-page_image}
use jfsfuse.Transaction.Commit.Logged.{IsApart, commit-log_pages}

abbrev log_super : LogSuper
log_super = record {
  magic = 0;
  version = 1;
  serial = 0;
  size = 4;
  bsize = 4096;
  l2bsize = 12;
  flag = 512;
  state = 0;
  end = 0;
  uuid = [];
  label = [];
  active = [];
}

abbrev journal : LogManager
journal = Manager.new log_super 0

abbrev changed_page : CachedPage
changed_page = record (new_page 3 (9 ∷ [])) { dirty = true; txid = 1; pin_count = 1 }

abbrev page_cache : PageCache (List ((ℕ × ℕ) × CachedPage))
page_cache = record { capacity = 2; cache = ((7, 3), changed_page) ∷ [] }

abbrev active : ActiveTxn
active = record { txid = 1; dirty_pages = (7, 3) ∷ []; allocated = []; freed = [] }

abbrev manager : TransactionManager
manager = record { next_txid = 2; active = some active; last_committed = 0 }

-- The log's storage fails on a write.
abbrev broken : Storage World
broken = record store { write_bytes = λ s o d. (false, s) }

store-IsApart : IsApart store store
store-IsApart = record {
  after_flush_data = λ s b. refl;
  after_flush_metadata = λ s b. refl;
  after_log_write = λ s o b d. refl;
  after_log_flush = λ s b. refl;
  after_log_sync = λ s b. refl;
}

broken-IsApart : IsApart store broken
broken-IsApart = record {
  after_flush_data = λ s b. refl;
  after_flush_metadata = λ s b. refl;
  after_log_write = λ s o b d. refl;
  after_log_flush = λ s b. refl;
  after_log_sync = λ s b. refl;
}

abbrev after :
    Committed
    × TransactionManager
    × World
    × PageCache (List ((ℕ × ℕ) × CachedPage))
    × Option LogManager
after = commit two_entries store store manager empty_world page_cache (some journal)

commit-page_image_example : store.read_block after.2 3 ≡ some (9 ∷ [])
unfolding commit Manager.append_log_record Manager.new Manager.commit_transaction Lrd.lrd_bytes
    Pxd.into_bytes
commit-page_image_example =
    commit-page_image two_entries store store two_entries-IsLawful store-IsLawful store-IsApart
      manager after.1 active empty_world after.2 page_cache after.3 (some journal) after.4 1 1 3
      refl refl

abbrev refused :
    Committed
    × TransactionManager
    × World
    × PageCache (List ((ℕ × ℕ) × CachedPage))
    × Option LogManager
refused = commit two_entries store broken manager empty_world page_cache (some journal)

commit-log_pages_example :
    ((n txid : ℕ) → refused.0 ≢ Committed.committed n txid)
    × ((b : ℕ) → store.read_block refused.2 b ≡ store.read_block empty_world b)
unfolding log_pages Manager.append_log_record Manager.new Manager.commit_transaction Lrd.lrd_bytes
    Pxd.into_bytes
commit-log_pages_example =
    commit-log_pages store broken broken-IsApart two_entries manager active empty_world page_cache
      (some journal) refl (inr (λ e. ground (arith, e)))
