-- ===== src/Journal/Recovery/Committed.antt =====
-- The replay of src/journal/recovery.rs writes only the pages of committed transactions.
use jfsfuse.Prelude.{
  ℕ, ◌+◌, ◌*◌, ◌≡◌, refl, sym, ap, ◌∙◌, Bool, true, false, not, ◌&&◌, ◌||◌, List, [], ◌∷◌, ◌++◌,
  reverse, reverse-cons, arith, ltb, ◌==◌, if◌then◌else◌, ==→≢, ≢→==, any, any-append,
}
use jfsfuse.Types.Pxd
use jfsfuse.Types.Lrd
use jfsfuse.Types.Lrd.{Lrd, has_bit, log_inode, log_data}
use jfsfuse.Types.LogSuper.{LogSuper}
use jfsfuse.Storage.Trait.{Storage, IsLawful}
use jfsfuse.Journal.Tracker.{CommitTracker, no_commits, commit, is_committed}
use jfsfuse.Journal.Recovery.{
  JournalRecovery, new, do_no_redo_page, do_no_redo_ino_ext, do_update_map, mark_bmap, update_page,
  do_after, process_record, backward,
}

-- Whether a commit record of the transaction is among the records.
abbrev pub commits_in : ℕ → List (Lrd × List ℕ) → Bool
commits_in tid rs = any (λ r. Lrd.is_commit r.0 && (r.0.logtid == tid)) rs

-- whether a record is an after-image of the block
abbrev pub is_image : ℕ → Lrd → Bool
is_image b lrd =
    not (Lrd.is_commit lrd) && Lrd.is_redopage lrd && (Pxd.address lrd.redopage_pxd == b)

-- Whether the records, in the order of the log, have an after-image of the block that a commit of
-- its transaction follows.
abbrev pub has_image : ℕ → List (Lrd × List ℕ) → Bool
has_image b [] = false
has_image b ((lrd, d) ∷ rs) = is_image b lrd && commits_in lrd.logtid rs || has_image b rs

-- The commits after a record was processed.
abbrev pub next_commits : Lrd → CommitTracker → CommitTracker
next_commits lrd c = if Lrd.is_commit lrd then commit lrd.logtid c else c

-- The same as `has_image`, over the records from the last to the first.
touched : ℕ → CommitTracker → List (Lrd × List ℕ) → Bool
touched b c [] = false
touched b c ((lrd, d) ∷ rs) =
    is_image b lrd && is_committed lrd.logtid c || touched b (next_commits lrd c) rs

pub is_committed-commit :
    (tid j : ℕ) (c : CommitTracker)
    → is_committed tid (commit j c) ≡ (is_committed tid c || (j == tid))
unfolding is_committed commit
is_committed-commit tid j c = ground arith

touched-append :
    (b : ℕ) (c : CommitTracker) (rs : List (Lrd × List ℕ)) (lrd : Lrd) (d : List ℕ)
    → touched b c (rs ++ ((lrd, d) ∷ [])) ≡ (
        touched b c rs || is_image b lrd && (is_committed lrd.logtid c || commits_in lrd.logtid rs))
unfolding touched
touched-append b c [] lrd d = ground arith
touched-append b c ((l, e) ∷ rs) lrd d =
    ground (
      arith,
      touched-append b (next_commits l c) rs lrd d,
      is_committed-commit lrd.logtid l.logtid c,
    )

pub commits_in-reverse :
    (tid : ℕ) (fs : List (Lrd × List ℕ)) → commits_in tid (reverse fs) ≡ commits_in tid fs
commits_in-reverse tid [] = refl
commits_in-reverse tid (r ∷ fs) =
    rw
      (
        reverse-cons r fs,
        any-append (λ r. Lrd.is_commit r.0 && (r.0.logtid == tid)) (reverse fs) (r ∷ []),
      )
      (ground (arith, commits_in-reverse tid fs))

touched-reverse :
    (b : ℕ) (fs : List (Lrd × List ℕ)) → touched b no_commits (reverse fs) ≡ has_image b fs
unfolding touched is_committed
touched-reverse b [] = refl
touched-reverse b ((lrd, d) ∷ fs) =
    rw
      (
        reverse-cons (lrd, d) fs,
        touched-append b no_commits (reverse fs) lrd d,
        touched-reverse b fs,
        commits_in-reverse lrd.logtid fs,
      )
      (ground arith)

module _ {S : Type 0} (storage : Storage S) where
  do_after_commits :
      (r : JournalRecovery) (s : S) (lrd : Lrd) (d : List ℕ)
      → (do_after storage r s lrd d).2.commits ≡ r.commits
  unfolding do_after update_page
  do_after_commits r s lrd d = ground arith

  pub process_record_commits :
      (r : JournalRecovery) (s : S) (lrd : Lrd) (d : List ℕ)
      → (process_record storage r s lrd d).2.commits ≡ next_commits lrd r.commits
  unfolding process_record do_no_redo_page do_no_redo_ino_ext do_update_map mark_bmap
  process_record_commits r s lrd d = ground (arith, do_after_commits r s lrd d)

  module _ (law : IsLawful storage) where
    write_block_other :
        (s : S) (a b : ℕ) (d : List ℕ)
        → (storage.write_block s a d).0 ≡ true
        → (a == b) ≡ false
        → storage.read_block (storage.write_block s a d).1 b ≡ storage.read_block s b
    write_block_other s a b d fine other =
        let t = (storage.write_block s a d).1 in
        law.read_block-write_block s t a b d (λ i. (fine i, t))
        ∙ rw (≢→== b a (λ e. ==→≢ a b other (sym e))) refl

    do_after_other :
        (r : JournalRecovery) (s : S) (lrd : Lrd) (d : List ℕ) (b : ℕ)
        → (do_after storage r s lrd d).0 ≡ true
        → (Pxd.address lrd.redopage_pxd == b) ≡ false
        → storage.read_block (do_after storage r s lrd d).1 b ≡ storage.read_block s b
    unfolding do_after update_page
    do_after_other r s lrd d b fine other =
        ground (arith, write_block_other s (Pxd.address lrd.redopage_pxd) b d)

    process_record_other :
        (r : JournalRecovery) (s : S) (lrd : Lrd) (d : List ℕ) (b : ℕ)
        → (process_record storage r s lrd d).0 ≡ true
        → (is_image b lrd && is_committed lrd.logtid r.commits) ≡ false
        → storage.read_block (process_record storage r s lrd d).1 b ≡ storage.read_block s b
    unfolding process_record
    process_record_other r s lrd d b fine other = ground (arith, do_after_other r s lrd d b)

    backward_other :
        (from pos last : ℕ) (r : JournalRecovery) (s : S) (rs : List (Lrd × List ℕ)) (b : ℕ)
        → (backward storage from pos last r s rs).0 ≡ true
        → touched b r.commits rs ≡ false
        → storage.read_block (backward storage from pos last r s rs).1 b ≡ storage.read_block s b
    unfolding backward touched
    backward_other from pos last r s [] b fine h = refl
    backward_other from pos last r s ((lrd, d) ∷ rs) b fine h =
        let q = (process_record storage r s lrd d).2 in
        let t = (process_record storage r s lrd d).1 in
        let stop =
          if Lrd.is_syncpt lrd && ltb 0 lrd.redopage_fileset
          then from + lrd.redopage_fileset * 4096
          else last in
        let rest = backward_other from pos stop q t rs b in
        ground
          (arith, process_record_other r s lrd d b, rw (process_record_commits r s lrd d) at rest)

    -- Records of a log are processed backward over a lawful store, by a recovery that has just
    -- begun, without an error. A block then is as it was before, unless the log has an after-
    -- image of it that a commit of the same transaction follows.
    pub backward-has_image :
        (logsuper : LogSuper) (from pos : ℕ) (s t : S) (q : JournalRecovery)
        (fs : List (Lrd × List ℕ)) (b : ℕ)
        → backward storage from pos 0 (new logsuper) s (reverse fs) ≡ (true, t, q)
        → has_image b fs ≡ false
        → storage.read_block t b ≡ storage.read_block s b
    unfolding new
    backward-has_image logsuper from pos s t q fs b h none_ = rw (ap (λ x. x.1) (sym h)) (
        backward_other from pos 0 (new logsuper) s (reverse fs) b (ap (λ x. x.0) h)
          (touched-reverse b fs ∙ none_))
