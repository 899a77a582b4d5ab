-- ===== src/Transaction/Commit.antt =====
-- What a commit of src/transaction.rs does to the blocks of the file system, and when.
pub mod Logged
use jfsfuse.Prelude.{
  ℕ, ◌+◌, ◌-◌, ◌/◌, ◌≡◌, refl, sym, ap, ◌∙◌, inl, inr, Bool, true, false, Option, none, some, List,
  [], ◌∷◌, map, arith, ◌==◌, if◌then◌else◌, Bool-cases, Option-cases, or_else,
}
use mathlib.Core.Option
use jfsfuse.Storage.Trait
use jfsfuse.Storage.Trait.{Storage}
use jfsfuse.Storage.Lru
use jfsfuse.Storage.Lru.{LruCache, same_key}
use jfsfuse.Storage.Cache
use jfsfuse.Storage.Cache.{CachedPage, PageCache, unpin}
use jfsfuse.Journal.Manager.{LogManager, Outcome, Outcome-cases, append_log_record}
use jfsfuse.Transaction.{
  TransactionManager, ActiveTxn, Committed, append_pages, log_pages, write_pages, release_pages,
  abort_pages, commit,
}
use jfsfuse.Transaction.Commit.Logged.{IsApart, log_pages_blocks}

module _ {C : Type 0} (lru : LruCache CachedPage C) where
  -- What the last cached page of the block among the keys holds.
  abbrev pub page_image : ℕ → C → List (ℕ × ℕ) → Option (List ℕ)
  page_image b c [] = none
  page_image b c ((inode, block) ∷ keys) =
      or_else (page_image b c keys)
        (if block == b then Option.map (λ p. p.data_) (lru.peek c (inode, block)) else none)

  module _ {S : Type 0} (storage log : Storage S) (lru_law : Lru.IsLawful lru) where
    page_image_touched :
        (b : ℕ) (c e : C) (keys : List (ℕ × ℕ))
        → ((q : ℕ × ℕ) → lru.peek e q ≡ lru.peek c q)
        → page_image b e keys ≡ page_image b c keys
    page_image_touched b c e [] h = refl
    page_image_touched b c e ((i, k) ∷ keys) h = rw (h (i, k), page_image_touched b c e keys h) refl

    append_pages_keeps :
        (txid : ℕ) (keys : List (ℕ × ℕ)) (s : S) (lm : LogManager) (pc : PageCache C) (q : ℕ × ℕ)
        → lru.peek (append_pages lru storage log txid keys s lm pc).3.cache q ≡ lru.peek pc.cache q
    unfolding append_pages
    append_pages_keeps txid [] s lm pc q = refl
    append_pages_keeps txid ((i, b) ∷ keys) s lm pc q =
        let seen = (Cache.get lru pc i b).1 in
        let rest : (t : S) (m : LogManager)
            → lru.peek (append_pages lru storage log txid keys t m seen).3.cache q
              ≡ lru.peek pc.cache q =
          λ t m. append_pages_keeps txid keys t m seen q ∙ lru_law.peek-touch pc.cache (i, b) q in
        elim (Option-cases (lru.peek pc.cache (i, b))) [
          | inl e ↦ rw (e, append_pages) (rest s lm)
          | inr (p, e) ↦
              let (o, t, m) = append_log_record log s lm txid b p.data_ in
              elim (Outcome-cases o) [
                | inl d ↦ rw (e, append_pages, d) (rest t m)
                | inr (inl d) ↦ rw (e, append_pages, d) (lru_law.peek-touch pc.cache (i, b) q)
                | inr (inr d) ↦ rw (e, append_pages, d) (lru_law.peek-touch pc.cache (i, b) q)
              ]
        ]

    log_pages_keeps :
        (txid : ℕ) (keys : List (ℕ × ℕ)) (s : S) (jm : Option LogManager) (pc : PageCache C)
        (q : ℕ × ℕ)
        → lru.peek (log_pages lru storage log txid keys s jm pc).3.cache q ≡ lru.peek pc.cache q
    unfolding log_pages
    log_pages_keeps txid keys s none pc q = refl
    log_pages_keeps txid keys s (some lm) pc q =
        ground (arith, append_pages_keeps txid keys s lm pc q)

    module _ (law : Trait.IsLawful storage) where
      write_pages_image :
          (keys : List (ℕ × ℕ)) (n : ℕ) (s : S) (pc : PageCache C) (b : ℕ)
          → (write_pages lru storage log keys n s pc).0 ≡ true
          → storage.read_block (write_pages lru storage log keys n s pc).2 b
            ≡ or_else (page_image b pc.cache keys) (storage.read_block s b)
      unfolding write_pages
      write_pages_image [] n s pc b fine = refl
      write_pages_image ((i, k) ∷ keys) n s pc b fine =
          let seen = (Cache.get lru pc i k).1 in
          let same =
            page_image_touched b pc.cache seen.cache keys (lru_law.peek-touch pc.cache (i, k)) in
          elim (Option-cases (lru.peek pc.cache (i, k))) [
            | inl e ↦
                let runs : write_pages lru storage log ((i, k) ∷ keys) n s pc
                    ≡ write_pages lru storage log keys n s seen =
                  rw (e, write_pages) refl in
                let rest = write_pages_image keys n s seen b (sym (ap (λ x. x.0) runs) ∙ fine) in
                rw (runs, rest, same, e) (ground arith)
            | inr (p, e) ↦
                let (ok_, t) = storage.write_block s k p.data_ in
                elim (Bool-cases ok_) [
                  | inr bad ↦ absurd (
                      let stops : (write_pages lru storage log ((i, k) ∷ keys) n s pc).0 ≡ false =
                        rw (e, write_pages, bad) refl in
                      ground arith)
                  | inl good ↦
                      let runs : write_pages lru storage log ((i, k) ∷ keys) n s pc
                          ≡ write_pages lru storage log keys (n + 1) t seen =
                        rw (e, write_pages, good) refl in
                      let rest =
                        write_pages_image keys (n + 1) t seen b (sym (ap (λ x. x.0) runs) ∙ fine) in
                      let wrote = law.read_block-write_block s t k b p.data_ (λ j. (good j, t)) in
                      rw (runs, rest, same, e) (ground (arith, wrote))
                ]
          ]

      -- Where a commit of the active transaction is done, over a lawful store and cache, with
      -- flushes and log writes that change no block of the file system: a block whose page is
      -- cached under some dirty key holds the data of the last such key, and any other block is
      -- as it was.
      pub commit-page_image :
          (apart : IsApart storage log) (tm tm2 : TransactionManager) (a : ActiveTxn) (s t : S)
          (pc pc2 : PageCache C) (jm jm2 : Option LogManager) (n txid b : ℕ)
          → tm.active ≡ some a
          → commit lru storage log tm s pc jm ≡ (Committed.committed n txid, tm2, t, pc2, jm2)
          → storage.read_block t b
            ≡ or_else (page_image b pc.cache a.dirty_pages) (storage.read_block s b)
      unfolding commit
      commit-page_image apart tm tm2 a s t pc pc2 jm jm2 n txid b act e =
          let keys = a.dirty_pages in
          let (flushed, s1) = storage.flush_data s in
          let (logged, s2, j2, c2) = log_pages lru storage log a.txid keys s1 jm pc in
          let (wrote, written, s3, c3) = write_pages lru storage log keys 0 s2 c2 in
          let (synced, s4) = storage.flush_metadata s3 in
          let how = commit lru storage log tm s pc jm in
          let fails : how.0 ≡ Committed.failed → ⊥ = λ f. ground (arith, f, ap (λ x. x.0) e) in
          elim (Bool-cases flushed) [
            | inr f ↦ absurd (fails (rw (act, commit, f) refl))
            | inl f ↦ elim (Outcome-cases logged) [
              | inr (inl d) ↦ absurd (fails (rw (act, commit, f, d) refl))
              | inr (inr d) ↦
                  let panics : how.0 ≡ Committed.panicked = rw (act, commit, f, d) refl in
                  absurd (ground (arith, panics, ap (λ x. x.0) e))
              | inl d ↦ elim (Bool-cases wrote) [
                | inr w ↦ absurd (fails (rw (act, commit, f, d, w) refl))
                | inl w ↦ elim (Bool-cases synced) [
                  | inr y ↦ absurd (fails (rw (act, commit, f, d, w, y) refl))
                  | inl y ↦
                      let ends : how.2 ≡ s4 = rw (act, commit, f, d, w, y) refl in
                      rw (sym (ap (λ x. x.2) e), ends)
                        (apart.after_flush_metadata s3 b
                          ∙ write_pages_image keys 0 s2 c2 b w
                          ∙ rw
                              (
                                page_image_touched b pc.cache c2.cache keys
                                    (log_pages_keeps a.txid keys s1 jm pc),
                                log_pages_blocks storage log apart lru a.txid keys s1 jm pc b,
                                apart.after_flush_data s b,
                              )
                              refl)
                ]
              ]
            ]
          ]
