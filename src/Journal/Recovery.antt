-- ===== src/Journal/Recovery.antt =====
-- `JournalRecovery` of src/journal/recovery.rs: the records of the log processed backward. The buffer
-- pool, which no operation uses, is left out.
pub mod Committed
pub mod Plain
pub mod Oldest
use jfsfuse.Prelude.{
  ℕ, zero, suc, ◌+◌, ◌-◌, ◌*◌, ◌/◌, min, ap, Bool, true, false, not, ◌&&◌, ◌||◌, Option, none, some,
  List, [], ◌∷◌, ◌++◌, map, reverse, ltb, leb, ◌==◌, if◌then◌else◌, length, get_or, set, drop,
  replicate, byte, read_u32,
}
use jfsfuse.Types.Pxd
use jfsfuse.Types.Pxd.{Pxd}
use jfsfuse.Types.Lrd
use jfsfuse.Types.Lrd.{Lrd, has_bit, log_inode, log_data}
use jfsfuse.Types.LogSuper
use jfsfuse.Types.LogSuper.{LogSuper, logredone, logpsize}
use jfsfuse.Storage.Trait.{Storage}
use jfsfuse.Journal.Reader
use jfsfuse.Journal.Reader.{LogReader, Scan}
use jfsfuse.Journal.Tracker.{
  CommitTracker, PageTracker, PageTrackerTable, RecoveryVolume, contains_key, no_commits, commit,
  is_committed, end_of_transaction, is_complete, set_no_redo, find, find_mut, find_or_create,
  new_volume, is_clean, is_logredoing, fm_clean, with_volume,
}

pub record JournalRecovery : Type 0 where
  pub logsuper : LogSuper
  pub commits : CommitTracker
  pub pages : PageTrackerTable
  pub no_redo_files : List ℕ
  pub volumes : List RecoveryVolume

unfoldable pub new : LogSuper → JournalRecovery
new logsuper = record {
  logsuper = logsuper;
  commits = no_commits;
  pages = λ b. [];
  no_redo_files = [];
  volumes = [];
}

-- The volume at an index, which the table is first extended to, and the table with another one.
abbrev pub volume : JournalRecovery → ℕ → RecoveryVolume
volume r idx = get_or (with_volume r.volumes idx) idx new_volume

abbrev pub set_volume : JournalRecovery → ℕ → RecoveryVolume → JournalRecovery
set_volume r idx v = record r { volumes = set (with_volume r.volumes idx) idx v }

-- `summary |= 0x07`, with the slots of the inode page
abbrev pub refresh : PageTracker → PageTracker
refresh t = record t { inode_slots = 7; summary = t.summary / 8 * 8 + 7 }

-- Where the page has no tracker, the code prepares one and drops it: the table gets a fresh one.
abbrev pub track : (PageTracker → PageTracker) → Pxd → ℕ → ℕ → PageTrackerTable → PageTrackerTable
track f pxd page_type aggregate p = elim (find (Pxd.address pxd) p) [
  | some t ↦ find_mut (Pxd.address pxd) f p
  | none ↦ find_or_create pxd page_type aggregate p
]

unfoldable pub do_no_redo_page : JournalRecovery → Lrd → JournalRecovery
do_no_redo_page r lrd = record r {
  pages = track set_no_redo lrd.redopage_pxd 0 lrd.aggregate r.pages;
}

-- The loop of `do_no_redo_ino_ext`, with `count` pages left from `addr` on.
unfoldable pub filter_pages : ℕ → ℕ → ℕ → PageTrackerTable → PageTrackerTable
filter_pages zero addr aggregate p = p
filter_pages (suc count) addr aggregate p =
    let filter_pxd = Pxd.set_length 1 (Pxd.set_address addr Pxd.default) in
    let tracked : PageTrackerTable = elim (find addr p) [
      | some t ↦ find_mut addr set_no_redo p
      | none ↦ find_or_create filter_pxd 0 aggregate p
    ] in
    filter_pages count (addr + 4096) aggregate tracked

unfoldable pub do_no_redo_ino_ext : JournalRecovery → Lrd → JournalRecovery
unfolding filter_pages
do_no_redo_ino_ext r lrd =
    let pages = (Pxd.length_of lrd.redopage_pxd + 4096 - 1) / 4096 in
    record r {
      pages = filter_pages (min pages 4) (Pxd.address lrd.redopage_pxd) lrd.aggregate r.pages;
    }

-- the first word of a bitmap page set to 1
abbrev pub write_one : List ℕ → List ℕ
write_one page = set (set (set (set page 0 1) 1 0) 2 0) 3 0

unfoldable pub mark_bmap : JournalRecovery → Lrd → ℕ → JournalRecovery
mark_bmap r lrd val =
    let idx = lrd.aggregate in
    let vol = volume r idx in
    let block = Pxd.address lrd.redopage_pxd / 4096 in
    let page = get_or vol.bmap_wsp block [] in
    if ltb block (length vol.bmap_wsp)
      && (val == 1)
      && ltb 4 (length page)
      && (read_u32 page 0 == 0)
    then set_volume r idx (record vol { bmap_wsp = set vol.bmap_wsp block (write_one page) })
    else set_volume r idx vol

-- The type's bits 0x20 and 0x10 tell a free from an allocation.
unfoldable pub do_update_map : JournalRecovery → Lrd → JournalRecovery
unfolding mark_bmap
do_update_map r lrd = mark_bmap r lrd (if has_bit lrd.redopage_type 32 then 0 else 1)

module _ {S : Type 0} (storage : Storage S) where
  -- Each handler answers whether it succeeded, with the file system's storage and its own state.
  unfoldable pub update_page : JournalRecovery → S → Lrd → List ℕ → Bool × S × JournalRecovery
  update_page r s lrd d =
      let addr = Pxd.address lrd.redopage_pxd in
      let complete : Bool = elim (find addr r.pages) [ none ↦ false | some t ↦ is_complete t ] in
      let (fine, t) = storage.write_block s addr d in
      if complete
      then (true, s, r)
      else if lrd.redopage_type == log_inode
      then (
        fine,
        t,
        if fine
            then record r { pages = track refresh lrd.redopage_pxd log_inode lrd.aggregate r.pages }
            else r,
      )
      else if has_bit lrd.redopage_type log_data
      then (fine, t, r)
      else (true, s, r)

  unfoldable pub do_after : JournalRecovery → S → Lrd → List ℕ → Bool × S × JournalRecovery
  do_after r s lrd d =
      let vol = volume r lrd.aggregate in
      let known = record r { volumes = with_volume r.volumes lrd.aggregate } in
      if is_clean vol || is_logredoing vol
      then (true, s, known)
      else if not (lrd.redopage_type == log_inode)
          && contains_key lrd.redopage_inode r.no_redo_files
      then (true, s, known)
      else update_page known s lrd d

  -- The second test of a commit record is never met, since the first one returns.
  unfoldable pub process_record : JournalRecovery → S → Lrd → List ℕ → Bool × S × JournalRecovery
  process_record r s lrd d =
      if Lrd.is_commit lrd
      then (true, s, record r { commits = commit lrd.logtid r.commits })
      else if Lrd.is_mount lrd
      then (
        true,
        s,
        set_volume r lrd.aggregate (record (volume r lrd.aggregate) { status = fm_clean }),
      )
      else if Lrd.is_syncpt lrd
      then (true, s, r)
      else if not (is_committed lrd.logtid r.commits)
      then (true, s, r)
      else if Lrd.is_commit lrd && (lrd.backchain == 0)
      then (true, s, record r { commits = (end_of_transaction lrd.logtid r.commits).1 })
      else if Lrd.is_redopage lrd
      then do_after r s lrd d
      else if Lrd.is_noredopage lrd
      then (true, s, do_no_redo_page r lrd)
      else if Lrd.is_noredoinoext lrd
      then (true, s, do_no_redo_ino_ext r lrd)
      else if Lrd.is_updatemap lrd
      then (true, s, do_update_map r lrd)
      else (true, s, r)

  -- The backward pass, over the records in reverse order; `pos` is where the forward pass stopped.
  unfoldable pub backward :
      ℕ → ℕ → ℕ → JournalRecovery → S → List (Lrd × List ℕ) → Bool × S × JournalRecovery
  backward log_data_start pos last_addr r s [] = (true, s, r)
  backward log_data_start pos last_addr r s ((lrd, d) ∷ records) =
      let (fine, t, q) = process_record r s lrd d in
      let sync = lrd.redopage_fileset in
      let stop =
        if Lrd.is_syncpt lrd && ltb 0 sync then log_data_start + sync * logpsize else last_addr in
      let rest = backward log_data_start pos stop q t records in
      if not fine then (false, t, q) else if ltb 0 stop && leb pos stop then (true, t, q) else rest

  -- The bytes of the log's superblock that `replay` writes back.
  abbrev pub super_head : LogSuper → List ℕ
  super_head s = LogSuper.head_bytes s ++ replicate 92 0

  -- `replay`, with the log as another view of the state. It answers whether it succeeded. Its loops
  -- over the log have one round more than the log has bytes, and are never left unfinished.
  unfoldable pub replay : Storage S → JournalRecovery → S → ℕ → Bool × S × JournalRecovery
  unfolding backward
  replay log r s log_data_start = elim (r.logsuper.state == logredone) [
    | true ↦ (true, s, r)
    | false ↦
        let reader = Reader.new r.logsuper log_data_start in
        let start = record reader { pos = log_data_start } in
        let end_ : Scan ℕ =
          if ltb 0 r.logsuper.end
          then Scan.ended r.logsuper.end
          else Reader.find_end log s reader in
        elim end_ [
          | Scan.failed ↦ (false, s, r)
          | Scan.unfinished ↦ (false, s, r)
          | Scan.ended log_end ↦
              elim (Reader.scan_loop log (reader.log_size * logpsize + 1) s start log_end) [
                | Scan.failed ↦ (false, s, r)
                | Scan.unfinished ↦ (false, s, r)
                | Scan.ended (records, pos) ↦
                    let (fine, t, q) = backward log_data_start pos 0 r s (reverse records) in
                    let done = LogSuper.set_state logredone q.logsuper in
                    let (written, u) =
                      log.write_bytes t (log_data_start - 4096) (super_head done) in
                    if fine then (written, u, record q { logsuper = done }) else (false, t, q)
              ]
        ]
  ]

-- `finalize`
abbrev pub finalize : JournalRecovery → LogSuper
finalize r = LogSuper.set_state logredone r.logsuper
