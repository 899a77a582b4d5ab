-- ===== src/Transaction.antt =====
-- `TransactionManager` of src/transaction.rs. The file system's storage and the log's are two views
-- of one state, so that an inline log and one on its own device are both covered. The lock, which
-- no operation takes, is left out.
pub mod Commit
pub mod Abort
mod Tests
use jfsfuse.Prelude.{
  ℕ, ◌+◌, ◌-◌, ◌/◌, ap, inl, Bool, true, false, not, ◌&&◌, Option, none, some, List, [], ◌∷◌, ◌++◌,
  ltb, ◌==◌, if◌then◌else◌, take, any, as_u64,
}
use jfsfuse.Storage.Trait.{Storage}
use jfsfuse.Storage.Lru.{LruCache}
use jfsfuse.Storage.Cache
use jfsfuse.Storage.Cache.{CachedPage, PageCache, clean_page, unpin}
use jfsfuse.Journal.Manager
use jfsfuse.Journal.Manager.{LogManager, Outcome}

pub record ActiveTxn : Type 0 where
  pub txid : ℕ
  pub dirty_pages : List (ℕ × ℕ)
  pub allocated : List ℕ
  pub freed : List ℕ

pub record TransactionManager : Type 0 where
  pub next_txid : ℕ
  pub active : Option ActiveTxn
  pub last_committed : ℕ

abbrev pub new : TransactionManager
new = record { next_txid = 1; active = none; last_committed = 0 }

-- The identifier, unless a transaction is in progress.
unfoldable pub begin : TransactionManager → Option ℕ × TransactionManager
begin tm = elim tm.active [
  | some a ↦ (none, tm)
  | none ↦
      let txid = tm.next_txid in
      (
        some txid,
        record tm {
          next_txid = as_u64 (txid + 1);
          active = some (record { txid = txid; dirty_pages = []; allocated = []; freed = [] });
        },
      )
]

unfoldable pub current_txid : TransactionManager → Option ℕ
current_txid tm = elim tm.active [
  | some a ↦ some a.txid
  | none ↦ if ltb 0 tm.last_committed then some tm.last_committed else none
]

abbrev pub has_active_transaction : TransactionManager → Bool
has_active_transaction tm = elim tm.active [ some a ↦ true | none ↦ false ]

-- `active.push(block)`, on one of the two lists of the active transaction
unfoldable pub record_allocation : TransactionManager → ℕ → Bool × TransactionManager
record_allocation tm block = elim tm.active [
  | none ↦ (false, tm)
  | some a ↦
      (true, record tm { active = some (record a { allocated = a.allocated ++ (block ∷ []) }) })
]

unfoldable pub record_free : TransactionManager → ℕ → Bool × TransactionManager
record_free tm block = elim tm.active [
  | none ↦ (false, tm)
  | some a ↦ (true, record tm { active = some (record a { freed = a.freed ++ (block ∷ []) }) })
]

-- How `commit` ends: the pages written and the transaction's identifier, an error or a panic.
pub data Committed : Type 0 where
  committed : ℕ → ℕ → Committed
  failed panicked : Committed

module _ {C : Type 0} (lru : LruCache CachedPage C) where
  unfoldable pub mark_dirty :
      TransactionManager → PageCache C → ℕ → ℕ → Bool × TransactionManager × PageCache C
  mark_dirty tm pc inode block = elim tm.active [
    | none ↦ (false, tm, pc)
    | some a ↦
        let known = any (λ k. (k.0 == inode) && (k.1 == block)) a.dirty_pages in
        let pages = if known then a.dirty_pages else a.dirty_pages ++ ((inode, block) ∷ []) in
        (
          true,
          record tm { active = some (record a { dirty_pages = pages }) },
          Cache.mark_dirty_txn lru pc inode block a.txid,
        )
  ]

  -- The loop of `abort_pages`: a page that cannot be put back is left as it was.
  unfoldable pub abort_pages : List (ℕ × ℕ) → PageCache C → PageCache C
  abort_pages [] pc = pc
  abort_pages ((inode, block) ∷ keys) pc =
      let (page, seen) = Cache.get lru pc inode block in
      let restored : PageCache C = elim page [
        | none ↦ seen
        | some p ↦ (Cache.put lru seen inode (unpin (clean_page p))).1
      ] in
      abort_pages keys (Cache.unpin_page lru restored inode block)

  unfoldable pub abort : TransactionManager → PageCache C → TransactionManager × PageCache C
  unfolding abort_pages
  abort tm pc = elim tm.active [
    | none ↦ (tm, pc)
    | some a ↦ (record tm { active = none }, abort_pages a.dirty_pages pc)
  ]

  -- The last loop of `commit`.
  unfoldable pub release_pages : List (ℕ × ℕ) → PageCache C → PageCache C
  release_pages [] pc = pc
  release_pages ((inode, block) ∷ keys) pc =
      release_pages keys (Cache.release lru (Cache.unpin_page lru pc inode block) inode block)

  module _ {S : Type 0} (storage log : Storage S) where
    -- The records of the dirty pages that are cached.
    unfoldable pub append_pages :
        ℕ → List (ℕ × ℕ) → S → LogManager → PageCache C → Outcome × S × LogManager × PageCache C
    append_pages txid [] s lm pc = (Outcome.done, s, lm, pc)
    append_pages txid ((inode, block) ∷ keys) s lm pc =
        let (page, seen) = Cache.get lru pc inode block in
        elim page [
          | none ↦ append_pages txid keys s lm seen
          | some p ↦
              let (o, t, q) = Manager.append_log_record log s lm txid block p.data_ in
              elim o [
                | Outcome.done ↦ append_pages txid keys t q seen
                | Outcome.failed ↦ (Outcome.failed, t, q, seen)
                | Outcome.panicked ↦ (Outcome.panicked, t, q, seen)
              ]
        ]

    -- The second step of `commit`, which an absent journal skips.
    unfoldable pub log_pages :
        ℕ
        → List (ℕ × ℕ)
        → S
        → Option LogManager
        → PageCache C
        → Outcome × S × Option LogManager × PageCache C
    unfolding append_pages
    log_pages txid keys s none pc = (Outcome.done, s, none, pc)
    log_pages txid keys s (some lm) pc =
        let (o, t, q, seen) = append_pages txid keys s lm pc in
        let (e, u, p) = Manager.commit_transaction log t q txid in
        elim o [
          | Outcome.done ↦ (e, u, some p, seen)
          | Outcome.failed ↦ (Outcome.failed, t, some q, seen)
          | Outcome.panicked ↦ (Outcome.panicked, t, some q, seen)
        ]

    -- The third step: the cached pages are written to their places, and counted.
    unfoldable pub write_pages : List (ℕ × ℕ) → ℕ → S → PageCache C → Bool × ℕ × S × PageCache C
    write_pages [] written s pc = (true, written, s, pc)
    write_pages ((inode, block) ∷ keys) written s pc =
        let (page, seen) = Cache.get lru pc inode block in
        elim page [
          | none ↦ write_pages keys written s seen
          | some p ↦
              let (fine, t) = storage.write_block s block p.data_ in
              let rest = write_pages keys (written + 1) t seen in
              if fine then rest else (false, written, t, seen)
        ]

    unfoldable pub commit :
        TransactionManager
        → S
        → PageCache C
        → Option LogManager
        → Committed × TransactionManager × S × PageCache C × Option LogManager
    unfolding log_pages write_pages abort_pages release_pages
    commit tm s pc journal = elim tm.active [
      | none ↦ (Committed.failed, tm, s, pc, journal)
      | some a ↦
          let taken = record tm { active = none } in
          let keys = a.dirty_pages in
          let (flushed, s1) = storage.flush_data s in
          let (logged, s2, jm, c2) = log_pages a.txid keys s1 journal pc in
          let (wrote, written, s3, c3) = write_pages keys 0 s2 c2 in
          let (synced, s4) = storage.flush_metadata s3 in
          if not flushed
          then (Committed.failed, taken, s1, abort_pages keys pc, journal)
          else elim logged [
            | Outcome.panicked ↦ (Committed.panicked, taken, s2, c2, jm)
            | Outcome.failed ↦ (Committed.failed, taken, s2, abort_pages keys c2, jm)
            | Outcome.done ↦
                if not wrote
                then (Committed.failed, taken, s3, abort_pages keys c3, jm)
                else if not synced
                then (Committed.failed, taken, s4, abort_pages keys c3, jm)
                else (
                  Committed.committed written a.txid,
                  record taken { last_committed = a.txid },
                  s4,
                  release_pages keys c3,
                  jm,
                )
          ]
    ]
