-- ===== src/Journal/Recovery/Oldest.antt =====
-- Which after-image of a page stands at the end of a replay of src/journal/recovery.rs, for the
-- records that src/journal/logmgr.rs writes.
use jfsfuse.Prelude.{
  ℕ, ◌<◌, ◌≡◌, refl, sym, ap, ◌∙◌, ◌⊎◌, inl, inr, true, false, ◌&&◌, ◌||◌, Option, none, some, List,
  [], ◌∷◌, ◌++◌, reverse, reverse-cons, arith, ◌==◌, if◌then◌else◌, ≢→==, Bool-cases, Option-cases,
  or_else, All, All-reverse,
}
use jfsfuse.Types.Pxd
use jfsfuse.Types.Pxd.{Pxd}
use jfsfuse.Types.Lrd
use jfsfuse.Types.Lrd.{Lrd, log_inode, log_commit, log_redopage}
use jfsfuse.Types.LogSuper.{LogSuper}
use jfsfuse.Storage.Trait.{Storage, IsLawful}
use jfsfuse.Journal.Tracker.{CommitTracker, find, with_volume, no_commits, is_committed}
use jfsfuse.Journal.Recovery.{
  JournalRecovery, new, volume, track, refresh, update_page, do_after, process_record, backward,
}
use jfsfuse.Journal.Recovery.Committed.{
  commits_in, commits_in-reverse, is_image, is_committed-commit, next_commits,
  process_record_commits,
}
use jfsfuse.Journal.Recovery.Plain.{
  IsPlain, find-Small, track-Small, with_volume_dirty, get_or_dirty,
}

-- A record as `append_log_record` and `commit_transaction` write it.
abbrev pub IsWritten : Lrd → Type 0
IsWritten lrd =
    (lrd.type_ ≡ log_commit) ⊎ ((lrd.type_ ≡ log_redopage) × (lrd.redopage_type ≡ log_inode))

-- The first after-image of the block in the log that a commit of its transaction follows.
abbrev pub oldest_image : ℕ → List (Lrd × List ℕ) → Option (List ℕ)
oldest_image b [] = none
oldest_image b ((lrd, d) ∷ rs) =
    if is_image b lrd && commits_in lrd.logtid rs then some d else oldest_image b rs

module _ {S : Type 0} (storage : Storage S) (law : IsLawful storage) where
  update_page_writes :
      (r : JournalRecovery) (s : S) (lrd : Lrd) (d : List ℕ)
      → IsPlain r
      → lrd.redopage_type ≡ log_inode
      → update_page storage r s lrd d ≡ (
          let (fine, t) = storage.write_block s (Pxd.address lrd.redopage_pxd) d in
          (
            fine,
            t,
            if fine
                then record r {
                  pages = track refresh lrd.redopage_pxd log_inode lrd.aggregate r.pages;
                }
                else r,
          ))
  unfolding update_page
  update_page_writes r s lrd d plain ty =
      elim (Option-cases (find (Pxd.address lrd.redopage_pxd) r.pages)) [
        | inl e ↦ rw (e, update_page, ty) refl
        | inr (t, e) ↦
            let low : t.summary < 8 =
              find-Small (Pxd.address lrd.redopage_pxd) r.pages t plain.open_pages e in
            let open_ : (t.summary == 255) ≡ false = ≢→== t.summary 255 (λ q. omega arith) in
            rw (e, update_page, open_, ty) refl
      ]

  update_page_image :
      (r : JournalRecovery) (s : S) (lrd : Lrd) (d : List ℕ)
      → IsPlain r
      → lrd.redopage_type ≡ log_inode
      → (update_page storage r s lrd d).0 ≡ true
      → IsPlain (update_page storage r s lrd d).2
        × ((b : ℕ)
            → storage.read_block (update_page storage r s lrd d).1 b
              ≡ (if Pxd.address lrd.redopage_pxd == b then some d else storage.read_block s b))
  update_page_image r s lrd d plain ty fine =
      let a = Pxd.address lrd.redopage_pxd in
      let t = (storage.write_block s a d).1 in
      let e = update_page_writes r s lrd d plain ty in
      let ok_ : (storage.write_block s a d).0 ≡ true = sym (ap (λ x. x.0) e) ∙ fine in
      rw e (
        rw ok_ (record {
          open_pages =
              track-Small lrd.redopage_pxd log_inode lrd.aggregate r.pages plain.open_pages;
          dirty = plain.dirty;
        }),
        λ b. law.read_block-write_block s t a b d (λ i. (ok_ i, t)) ∙ ground arith,
      )

  do_after_updates :
      (r : JournalRecovery) (s : S) (lrd : Lrd) (d : List ℕ)
      → IsPlain r
      → lrd.redopage_type ≡ log_inode
      → do_after storage r s lrd d
        ≡ update_page storage (record r { volumes = with_volume r.volumes lrd.aggregate }) s lrd d
  unfolding do_after
  do_after_updates r s lrd d plain ty =
      let status : (volume r lrd.aggregate).status ≡ 2 =
        get_or_dirty (with_volume r.volumes lrd.aggregate) lrd.aggregate
          (with_volume_dirty r.volumes lrd.aggregate plain.dirty) in
      rw (status, ty) refl

  IsWritten-is_syncpt : (lrd : Lrd) → IsWritten lrd → Lrd.is_syncpt lrd ≡ false
  IsWritten-is_syncpt lrd (inl c) = rw c refl
  IsWritten-is_syncpt lrd (inr (c, ty)) = rw c refl

  -- One record of the log that the manager writes.
  step :
      (r : JournalRecovery) (s : S) (lrd : Lrd) (d : List ℕ)
      → IsPlain r
      → IsWritten lrd
      → (process_record storage r s lrd d).0 ≡ true
      → IsPlain (process_record storage r s lrd d).2
        × ((b : ℕ)
            → storage.read_block (process_record storage r s lrd d).1 b ≡ (
                if is_image b lrd && is_committed lrd.logtid r.commits
                then some d
                else storage.read_block s b))
  unfolding process_record do_after update_page
  step r s lrd d plain (inl c) fine =
      rw c (record { open_pages = plain.open_pages; dirty = plain.dirty }, λ b. refl)
  step r s lrd d plain (inr (c, ty)) fine = elim (Bool-cases (is_committed lrd.logtid r.commits)) [
    | inl k ↦
        let known : JournalRecovery = record r { volumes = with_volume r.volumes lrd.aggregate } in
        let known_plain : IsPlain known = record {
          open_pages = plain.open_pages;
          dirty = with_volume_dirty r.volumes lrd.aggregate plain.dirty;
        } in
        let runs : process_record storage r s lrd d ≡ update_page storage known s lrd d =
          rw (c, process_record, k) (do_after_updates r s lrd d plain ty) in
        let done =
          update_page_image known s lrd d known_plain ty (sym (ap (λ x. x.0) runs) ∙ fine) in
        rw runs (done.0, λ b. done.1 b ∙ rw (c, k) (ground arith))
    | inr k ↦ rw (c, process_record, k) (plain, λ b. ground arith)
  ]

  -- The last after-image that the backward pass writes, over the records from the last to the first.
  abbrev last_written : ℕ → CommitTracker → List (Lrd × List ℕ) → Option (List ℕ) → Option (List ℕ)
  last_written b c [] old = old
  last_written b c ((lrd, d) ∷ rs) old =
      last_written b (next_commits lrd c) rs
        (if is_image b lrd && is_committed lrd.logtid c then some d else old)

  last_written-append :
      (b : ℕ) (c : CommitTracker) (rs : List (Lrd × List ℕ)) (lrd : Lrd) (d : List ℕ)
      (old : Option (List ℕ))
      → last_written b c (rs ++ ((lrd, d) ∷ [])) old ≡ (
          if is_image b lrd && (is_committed lrd.logtid c || commits_in lrd.logtid rs)
          then some d
          else last_written b c rs old)
  last_written-append b c [] lrd d old = ground arith
  last_written-append b c ((l, e) ∷ rs) lrd d old =
      last_written-append b (next_commits l c) rs lrd d
        (if is_image b l && is_committed l.logtid c then some e else old)
      ∙ ground (arith, is_committed-commit lrd.logtid l.logtid c)

  last_written-reverse :
      (b : ℕ) (fs : List (Lrd × List ℕ)) (old : Option (List ℕ))
      → last_written b no_commits (reverse fs) old ≡ or_else (oldest_image b fs) old
  unfolding is_committed
  last_written-reverse b [] old = refl
  last_written-reverse b ((lrd, d) ∷ fs) old =
      rw
        (
          reverse-cons (lrd, d) fs,
          last_written-append b no_commits (reverse fs) lrd d old,
          last_written-reverse b fs old,
          commits_in-reverse lrd.logtid fs,
        )
        (ground arith)

  backward_last :
      (from pos : ℕ) (r : JournalRecovery) (s : S) (rs : List (Lrd × List ℕ)) (b : ℕ)
      → IsPlain r
      → All (λ x. IsWritten x.0) rs
      → (backward storage from pos 0 r s rs).0 ≡ true
      → storage.read_block (backward storage from pos 0 r s rs).1 b
        ≡ last_written b r.commits rs (storage.read_block s b)
  unfolding backward
  backward_last from pos r s [] b plain w fine = refl
  backward_last from pos r s ((lrd, d) ∷ rs) b plain w fine =
      let q = (process_record storage r s lrd d).2 in
      let t = (process_record storage r s lrd d).1 in
      let last = IsWritten-is_syncpt lrd w.0 in
      elim (Bool-cases (process_record storage r s lrd d).0) [
        | inl ok_ ↦
            let runs : backward storage from pos 0 r s ((lrd, d) ∷ rs)
                ≡ backward storage from pos 0 q t rs =
              rw (backward, last, ok_) refl in
            let done = step r s lrd d plain w.0 ok_ in
            let rest =
              backward_last from pos q t rs b done.0 w.1 (sym (ap (λ x. x.0) runs) ∙ fine) in
            rw runs (rest ∙ rw (process_record_commits storage r s lrd d, done.1 b) refl)
        | inr bad ↦ absurd (ground arith)
      ]

  -- Records that the log manager writes, commits and after-images of inode pages, are processed
  -- backward over a lawful store, by a recovery that has just begun, without an error. A block
  -- then holds the first after-image of it in the log that a commit of its transaction follows,
  -- or, where there is none, what it held before.
  pub backward-oldest_image :
      (logsuper : LogSuper) (from pos : ℕ) (s t : S) (q : JournalRecovery)
      (fs : List (Lrd × List ℕ)) (b : ℕ)
      → All (λ x. IsWritten x.0) fs
      → backward storage from pos 0 (new logsuper) s (reverse fs) ≡ (true, t, q)
      → storage.read_block t b ≡ or_else (oldest_image b fs) (storage.read_block s b)
  unfolding new
  backward-oldest_image logsuper from pos s t q fs b w h =
      let plain : IsPlain (new logsuper) = record { open_pages = λ h. tt; dirty = tt } in
      rw (ap (λ x. x.1) (sym h)) (
        backward_last from pos (new logsuper) s (reverse fs) b plain
          (All-reverse (λ x. IsWritten x.0) fs w) (ap (λ x. x.0) h)
        ∙ last_written-reverse b fs (storage.read_block s b))
