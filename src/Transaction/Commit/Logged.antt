-- ===== src/Transaction/Commit/Logged.antt =====
-- Until the commit of src/transaction.rs has written its records to the log, it writes no block of
-- the file system.
use jfsfuse.Prelude.{
  ℕ, zero, suc, ◌+◌, ◌-◌, ◌*◌, ◌/◌, ◌%◌, min, ◌≡◌, refl, ◌∙◌, ◌≢◌, ◌⊎◌, inl, inr, Bool, true, false,
  not, ◌&&◌, Option, none, some, List, [], ◌∷◌, arith, ltb, if◌then◌else◌, Bool-cases, Option-cases,
  if_keeps, length, take, drop, as_u32,
}
use jfsfuse.Types.LogSuper
use jfsfuse.Storage.Trait.{Storage}
use jfsfuse.Storage.Lru.{LruCache}
use jfsfuse.Storage.Cache
use jfsfuse.Storage.Cache.{CachedPage, PageCache}
use jfsfuse.Journal.Manager
use jfsfuse.Journal.Manager.{
  LogManager, Outcome, Outcome-cases, flush_journal, make_room, append_log_record,
  commit_transaction, put_record, commit_record, page_offset, log_buffer_size,
}
use jfsfuse.Transaction.{TransactionManager, ActiveTxn, Committed, append_pages, log_pages, commit}

-- A flush changes no block, and the log's own writes reach no block of the file system.
pub record IsApart {S : Type 0} (storage log : Storage S) : Type 0 where
  pub after_flush_data :
      (s : S) (b : ℕ) → storage.read_block (storage.flush_data s).1 b ≡ storage.read_block s b
  pub after_flush_metadata :
      (s : S) (b : ℕ) → storage.read_block (storage.flush_metadata s).1 b ≡ storage.read_block s b
  pub after_log_write :
      (s : S) (o b : ℕ) (d : List ℕ)
      → storage.read_block (log.write_bytes s o d).1 b ≡ storage.read_block s b
  pub after_log_flush :
      (s : S) (b : ℕ) → storage.read_block (log.flush_metadata s).1 b ≡ storage.read_block s b
  pub after_log_sync :
      (s : S) (b : ℕ) → storage.read_block (log.sync s).1 b ≡ storage.read_block s b

module _ {S : Type 0} (storage log : Storage S) (apart : IsApart storage log) where
  write_pages_blocks :
      (n i start : ℕ) (s : S) (lm : LogManager) (b : ℕ)
      → storage.read_block (Manager.write_pages log n i start s lm).1 b ≡ storage.read_block s b
  unfolding Manager.write_pages
  write_pages_blocks zero i start s lm b = refl
  write_pages_blocks (suc n) i start s lm b =
      let buf_start = i * 4096 in
      let buf_end = min (buf_start + 4096) (length lm.log_buffer) in
      let chunk = take (buf_end - buf_start) (drop buf_start lm.log_buffer) in
      let written = apart.after_log_write s (page_offset lm (as_u32 (start + i))) b chunk in
      let (fine, t) = log.write_bytes s (page_offset lm (as_u32 (start + i))) chunk in
      if_keeps fine (λ (x : Bool × S). storage.read_block x.1 b ≡ storage.read_block s b)
        (write_pages_blocks n (i + 1) start t lm b ∙ written) written

  flush_journal_blocks :
      (s : S) (lm : LogManager) (b : ℕ)
      → storage.read_block (flush_journal log s lm).1 b ≡ storage.read_block s b
  unfolding flush_journal
  flush_journal_blocks s lm b =
      let from = lm.write_offset - lm.write_offset % log_buffer_size in
      let count = (lm.write_offset - from + 4096 - 1) / 4096 in
      let P : Bool × S × LogManager → Type 0 =
        λ x. storage.read_block x.1 b ≡ storage.read_block s b in
      let (wrote, s1) =
        if lm.buffer_dirty && ltb 0 lm.write_offset
        then Manager.write_pages log count 0 (as_u32 (from / 4096)) s lm
        else (true, s) in
      let (flushed, s2) = log.flush_metadata s1 in
      let (synced, s3) = log.sync s2 in
      let e1 : storage.read_block s1 b ≡ storage.read_block s b =
        if_keeps (lm.buffer_dirty && ltb 0 lm.write_offset)
          (λ (x : Bool × S). storage.read_block x.1 b ≡ storage.read_block s b)
          (write_pages_blocks count 0 (as_u32 (from / 4096)) s lm b) refl in
      let e2 = apart.after_log_flush s1 b ∙ e1 in
      let e3 = apart.after_log_sync s2 b ∙ e2 in
      let ended = LogSuper.set_end (as_u32 lm.write_offset) lm.logsuper in
      let e4 = apart.after_log_write s3 (lm.log_base + 4096) b (Manager.super_bytes ended) ∙ e3 in
      if_keeps (not wrote) P e1 (if_keeps (not flushed) P e2 (if_keeps (not synced) P e3 e4))

  make_room_blocks :
      (s : S) (lm : LogManager) (n b : ℕ)
      → storage.read_block (make_room log s lm n).1 b ≡ storage.read_block s b
  unfolding make_room
  make_room_blocks s lm n b = ground (arith, flush_journal_blocks s lm b)

  append_log_record_blocks :
      (s : S) (lm : LogManager) (txid block : ℕ) (d : List ℕ) (b : ℕ)
      → storage.read_block (append_log_record log s lm txid block d).1 b ≡ storage.read_block s b
  unfolding append_log_record
  append_log_record_blocks s lm txid block d b =
      ground (arith, make_room_blocks s lm (36 + length d) b)

  commit_transaction_blocks :
      (s : S) (lm : LogManager) (txid b : ℕ)
      → storage.read_block (commit_transaction log s lm txid).1 b ≡ storage.read_block s b
  unfolding commit_transaction
  commit_transaction_blocks s lm txid b =
      let p = (make_room log s lm 36) in
      ground (
        arith,
        make_room_blocks s lm 36 b,
        flush_journal_blocks p.1 (put_record p.2 (commit_record p.2 txid) []) b,
      )

  module _ {C : Type 0} (lru : LruCache CachedPage C) where
    append_pages_blocks :
        (txid : ℕ) (keys : List (ℕ × ℕ)) (s : S) (lm : LogManager) (pc : PageCache C) (b : ℕ)
        → storage.read_block (append_pages lru storage log txid keys s lm pc).1 b
          ≡ storage.read_block s b
    unfolding append_pages
    append_pages_blocks txid [] s lm pc b = refl
    append_pages_blocks txid ((i, k) ∷ keys) s lm pc b =
        let rest : (t : S) (q : LogManager)
            → storage.read_block t b ≡ storage.read_block s b
            → storage.read_block
                (append_pages lru storage log txid keys t q (Cache.get lru pc i k).1).1 b
              ≡ storage.read_block s b =
          λ t q e. append_pages_blocks txid keys t q (Cache.get lru pc i k).1 b ∙ e in
        elim (Option-cases (lru.peek pc.cache (i, k))) [
          | inl e ↦ rw (e, append_pages) (rest s lm refl)
          | inr (p, e) ↦
              let (o, t, q) = append_log_record log s lm txid k p.data_ in
              let kept = append_log_record_blocks s lm txid k p.data_ b in
              elim (Outcome-cases o) [
                | inl d ↦ rw (e, append_pages, d) (rest t q kept)
                | inr (inl d) ↦ rw (e, append_pages, d) kept
                | inr (inr d) ↦ rw (e, append_pages, d) kept
              ]
        ]

    pub log_pages_blocks :
        (txid : ℕ) (keys : List (ℕ × ℕ)) (s : S) (jm : Option LogManager) (pc : PageCache C) (b : ℕ)
        → storage.read_block (log_pages lru storage log txid keys s jm pc).1 b
          ≡ storage.read_block s b
    unfolding log_pages
    log_pages_blocks txid keys s none pc b = refl
    log_pages_blocks txid keys s (some lm) pc b =
        let (o, t, q, seen) = append_pages lru storage log txid keys s lm pc in
        ground
          (arith, append_pages_blocks txid keys s lm pc b, commit_transaction_blocks t q txid b)

    -- A commit of an active transaction, with flushes and log writes that change no block of the
    -- file system. If the flush of the data fails, or the records and the commit record do not
    -- all reach the log, the commit is not done, and every block of the file system is as it
    -- was.
    pub commit-log_pages :
        (tm : TransactionManager) (a : ActiveTxn) (s : S) (pc : PageCache C)
        (jm : Option LogManager)
        → tm.active ≡ some a
        → ((storage.flush_data s).0 ≡ false)
          ⊎ ((log_pages lru storage log a.txid a.dirty_pages (storage.flush_data s).1 jm pc).0
              ≢ Outcome.done)
        → ((n txid : ℕ) → (commit lru storage log tm s pc jm).0 ≢ Committed.committed n txid)
          × ((b : ℕ)
              → storage.read_block (commit lru storage log tm s pc jm).2 b ≡ storage.read_block s b)
    unfolding commit
    commit-log_pages tm a s pc jm act unlogged =
        let keys = a.dirty_pages in
        let (flushed, s1) = storage.flush_data s in
        let (logged, s2, j2, c2) = log_pages lru storage log a.txid keys s1 jm pc in
        let how = commit lru storage log tm s pc jm in
        let kept : (b : ℕ) → storage.read_block s1 b ≡ storage.read_block s b =
          λ b. apart.after_flush_data s b in
        let kept2 : (b : ℕ) → storage.read_block s2 b ≡ storage.read_block s b =
          λ b. log_pages_blocks a.txid keys s1 jm pc b ∙ kept b in
        elim (Bool-cases flushed) [
          | inr f ↦
              let ends : how.0 ≡ Committed.failed = rw (act, commit, f) refl in
              let leaves : how.2 ≡ s1 = rw (act, commit, f) refl in
              (λ n i e. ground (arith, ends, e), λ b. rw leaves (kept b))
          | inl f ↦ elim (Outcome-cases logged) [
            | inl d ↦ absurd (elim unlogged [ inl g ↦ ground arith | inr g ↦ g d ])
            | inr (inl d) ↦
                let ends : how.0 ≡ Committed.failed = rw (act, commit, f, d) refl in
                let leaves : how.2 ≡ s2 = rw (act, commit, f, d) refl in
                (λ n i e. ground (arith, ends, e), λ b. rw leaves (kept2 b))
            | inr (inr d) ↦
                let ends : how.0 ≡ Committed.panicked = rw (act, commit, f, d) refl in
                let leaves : how.2 ≡ s2 = rw (act, commit, f, d) refl in
                (λ n i e. ground (arith, ends, e), λ b. rw leaves (kept2 b))
          ]
        ]
