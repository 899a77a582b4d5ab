-- ===== src/Journal/Tests.antt =====
-- The log of src/journal on concrete records and a concrete store.
use jfsfuse.Prelude.{
  ℕ, ◌+◌, ◌≤◌, ◌≡◌, refl, ◌≢◌, inl, inr, Bool, some, List, [], ◌∷◌, reverse, arith, length,
  replicate, length-replicate,
}
use jfsfuse.Types.Pxd
use jfsfuse.Types.Pxd.Fields.{set_length-IsWords, set_address-IsWords}
use jfsfuse.Types.Lrd
use jfsfuse.Types.Lrd.{Lrd, log_commit, log_redopage, log_inode, lrd_bytes, parse_lrd}
use jfsfuse.Types.Lrd.Bytes.{parse_lrd-lrd_bytes}
use jfsfuse.Types.LogSuper.{LogSuper}
use jfsfuse.Storage.Sample.{World, empty_world, store, store-IsLawful}
use jfsfuse.Journal.Tracker
use jfsfuse.Journal.Reader
use jfsfuse.Journal.Reader.{LogReader, Next, next_forward, find_end, find_end_loop, scan_loop, Scan}
use jfsfuse.Journal.Reader.Termination.{find_end-scan_loop_settle}
use jfsfuse.Journal.Manager
use jfsfuse.Journal.Manager.{LogManager, Outcome, append_log_record, redo_record}
use jfsfuse.Journal.Manager.Records.{next_forward-append_log_record}
use jfsfuse.Journal.Manager.Bounds.{append_log_record-offset_in_buf}
use jfsfuse.Journal.Recovery
use jfsfuse.Journal.Recovery.{JournalRecovery, backward}
use jfsfuse.Journal.Recovery.Committed.{backward-has_image}
use jfsfuse.Journal.Recovery.Oldest.{backward-oldest_image}

abbrev log_super : LogSuper
log_super = record {
  magic = 0;
  version = 1;
  serial = 0;
  size = 4;
  bsize = 4096;
  l2bsize = 12;
  flag = 512;
  state = 0;
  end = 0;
  uuid = [];
  label = [];
  active = [];
}

-- an after-image of a block, and a commit, of a transaction
abbrev image : ℕ → ℕ → Lrd
image txid block = record Lrd.default {
  logtid = txid;
  type_ = log_redopage;
  length = 1;
  redopage_type = log_inode;
  redopage_pxd = Pxd.set_length 1 (Pxd.set_address block Pxd.default);
}

abbrev end_of : ℕ → Lrd
end_of txid = record Lrd.default { logtid = txid; type_ = log_commit }

-- Two transactions write block 5, and a third, which does not commit, block 6.
abbrev records : List (Lrd × List ℕ)
records =
    (image 1 5, 11 ∷ [])
    ∷ (end_of 1, [])
    ∷ (image 2 5, 12 ∷ [])
    ∷ (end_of 2, [])
    ∷ (image 3 6, 13 ∷ [])
    ∷ []

abbrev replayed : Bool × World × JournalRecovery
replayed = backward store 8192 0 0 (Recovery.new log_super) empty_world (reverse records)

backward-has_image_example : store.read_block replayed.1 6 ≡ store.read_block empty_world 6
unfolding backward Recovery.process_record Tracker.is_committed Recovery.new Tracker.commit
    Recovery.do_after Tracker.with_volume Recovery.update_page Tracker.find Tracker.find_or_create
    Pxd.address Pxd.set_length Pxd.set_address
backward-has_image_example =
    backward-has_image store store-IsLawful log_super 8192 0 empty_world replayed.1 replayed.2
      records 6 refl refl

backward-oldest_image_example : store.read_block replayed.1 5 ≡ some (11 ∷ [])
unfolding backward Recovery.process_record Tracker.is_committed Recovery.new Tracker.commit
    Recovery.do_after Tracker.with_volume Recovery.update_page Tracker.find Tracker.find_or_create
    Pxd.address Pxd.set_length Pxd.set_address
backward-oldest_image_example =
    backward-oldest_image store store-IsLawful log_super 8192 0 empty_world replayed.1 replayed.2
      records 5
      (inr (refl, refl), (inl refl, (inr (refl, refl), (inl refl, (inr (refl, refl), tt))))) refl

parse_lrd-lrd_bytes_example : parse_lrd (lrd_bytes (image 2 5)) ≡ image 2 5
parse_lrd-lrd_bytes_example = parse_lrd-lrd_bytes (image 2 5) (record {
  logtid_u32 = omega arith;
  backchain_u32 = omega arith;
  type_u16 = omega arith;
  length_u16 = omega arith;
  aggregate_u32 = omega arith;
  fileset_u32 = omega arith;
  inode_u32 = omega arith;
  redopage_type_u16 = omega arith;
  l2linesize_u16 = omega arith;
  pxd_words = set_length-IsWords 1 (set_address-IsWords Pxd.default 5);
})

abbrev reader : LogReader
reader = record (Reader.new log_super 0) { pos = 0 }

-- Of 100 rounds more than the log has bytes, none is used.
find_end-scan_loop_settle_example :
    (find_end store empty_world reader ≢ Scan.unfinished)
    × (find_end_loop store 16485 empty_world reader 0 ≡ find_end store empty_world reader)
    × (scan_loop store 16385 empty_world reader 10 ≢ Scan.unfinished)
    × (scan_loop store 16485 empty_world reader 10 ≡ scan_loop store 16385 empty_world reader 10)
unfolding Reader.new
find_end-scan_loop_settle_example = find_end-scan_loop_settle store 100 empty_world reader 10 refl

abbrev journal : LogManager
journal = Manager.new log_super 0

journal_length : length journal.log_buffer ≡ 8192
unfolding Manager.new
journal_length =
    let zeros : List ℕ = replicate 8192 0 in
    let filled : length zeros ≡ 8192 = length-replicate {A = ℕ} 8192 0 in filled

abbrev appended : Outcome × World × LogManager
appended = append_log_record store empty_world journal 1 5 (7 ∷ 8 ∷ [])

next_forward-append_log_record_example :
    next_forward store (record empty_world { log_bytes = appended.2.log_buffer }) reader
    ≡ Next.found (redo_record journal 1 5 2) (7 ∷ 8 ∷ []) 40
unfolding Manager.new append_log_record Reader.new
next_forward-append_log_record_example =
    next_forward-append_log_record store empty_world appended.1
      (record empty_world { log_bytes = appended.2.log_buffer }) journal appended.2 1 5 0
      (7 ∷ 8 ∷ []) reader journal_length refl (omega arith) (omega arith)
      (λ o n h. let start : 0 + o ≡ o = omega arith in rw start refl) refl (omega arith)

append_log_record-offset_in_buf_example :
    (appended.0 ≢ Outcome.panicked)
    × (length appended.2.log_buffer ≡ 8192)
    × (appended.0 ≡ Outcome.done → 38 ≤ appended.2.write_offset)
unfolding Manager.new
append_log_record-offset_in_buf_example =
    append_log_record-offset_in_buf store empty_world journal 1 5 (7 ∷ 8 ∷ []) journal_length
      (omega arith)
