-- ===== src/Journal/Manager.antt =====
-- `LogManager` of src/journal/logmgr.rs, over the state that its storage stands in. The identifier of
-- the log, which is always empty, is left out.
pub mod Records
pub mod Bounds
use jfsfuse.Prelude.{
  ℕ, zero, suc, ◌+◌, ◌-◌, ◌*◌, ◌/◌, ◌%◌, ◌^◌, min, ◌≡◌, refl, ap, ◌⊎◌, inl, inr, Bool, true, false,
  not, ◌&&◌, Option, none, some, List, [], ◌++◌, ltb, leb, ◌==◌, if◌then◌else◌, length, set, take,
  drop, replicate, concat, as_u16, as_u32, byte, read_u32,
}
use jfsfuse.Types.Pxd
use jfsfuse.Types.Lrd
use jfsfuse.Types.Lrd.{Lrd, lrd_size, lrd_bytes, log_redopage, log_commit, log_inode}
use jfsfuse.Types.LogSuper
use jfsfuse.Types.LogSuper.{LogSuper, logpsize, logredone, logwrap, logmagic, logversion}
use jfsfuse.Storage.Trait.{Storage, Read}

pub record LogManager : Type 0 where
  pub logsuper : LogSuper
  pub inline : Bool
  pub write_offset : ℕ
  pub prev_record_offset : ℕ
  pub log_buffer : List ℕ
  pub buffer_dirty : Bool
  pub log_pages : ℕ
  pub log_base : ℕ

-- A slice out of bounds panics.
pub data Outcome : Type 0 where
  done failed panicked : Outcome

pub Outcome-cases :
    (o : Outcome) → (o ≡ Outcome.done) ⊎ ((o ≡ Outcome.failed) ⊎ (o ≡ Outcome.panicked))
Outcome-cases Outcome.done = inl refl
Outcome-cases Outcome.failed = inr (inl refl)
Outcome-cases Outcome.panicked = inr (inr refl)

-- `LOG_BUFFER_SIZE`
abbrev pub log_buffer_size : ℕ
log_buffer_size = 8192

abbrev pub block_size : ℕ
block_size = 4096

unfoldable pub new : LogSuper → ℕ → LogManager
new logsuper log_base = record {
  logsuper = logsuper;
  inline = logsuper.flag / 2 ^ 9 % 2 == 1;
  write_offset = 0;
  prev_record_offset = 0;
  log_buffer = replicate log_buffer_size 0;
  buffer_dirty = false;
  log_pages = LogSuper.page_size logsuper;
  log_base = log_base;
}

-- A word of the superblock is read where the data reach behind it.
abbrev pub word_at : List ℕ → ℕ → ℕ
word_at d i = if leb (i + 4) (length d) then read_u32 d i else 0

abbrev pub name_at : List ℕ → ℕ → List ℕ
name_at d i = if leb (i + 16) (length d) then take 16 (drop i d) else replicate 16 0

abbrev pub parse_super : List ℕ → LogSuper
parse_super d = record {
  magic = word_at d 0;
  version = word_at d 4;
  serial = word_at d 8;
  size = word_at d 12;
  bsize = word_at d 16;
  l2bsize = word_at d 20;
  flag = word_at d 24;
  state = word_at d 28;
  end = word_at d 32;
  uuid = name_at d 36;
  label = name_at d 52;
  active = replicate 128 (replicate 16 0);
}

abbrev pub validate : LogManager → Bool
validate lm = (lm.logsuper.magic == logmagic) && (lm.logsuper.version == logversion)

abbrev pub needs_replay : LogManager → Bool
needs_replay lm = not (lm.logsuper.state == logredone)

abbrev pub has_wrapped : LogManager → Bool
has_wrapped lm = lm.logsuper.state == logwrap

abbrev pub page_offset : LogManager → ℕ → ℕ
page_offset lm page_num = lm.log_base + block_size * 2 + page_num * logpsize

abbrev pub data_start : LogManager → ℕ
data_start lm = lm.log_base + block_size * 2

abbrev pub log_size_bytes : LogManager → ℕ
log_size_bytes lm = LogSuper.page_size lm.logsuper * logpsize

-- The page that `write_super` fills.
unfoldable pub super_bytes : LogSuper → List ℕ
super_bytes s =
    let head = LogSuper.head_bytes s ++ s.uuid ++ s.label ++ concat s.active in
    head ++ replicate (logpsize - length head) 0

-- `buf[off..off + d.len()].copy_from_slice(d)`
abbrev pub copy_slice : List ℕ → ℕ → List ℕ → List ℕ
copy_slice buf off d = take off buf ++ d ++ drop (off + length d) buf

-- The flush and the step to the next buffer, where a record does not fit.
abbrev pub advance : LogManager → LogManager
advance lm = record lm {
  log_buffer = replicate (length lm.log_buffer) 0;
  buffer_dirty = false;
  write_offset = (lm.write_offset + log_buffer_size - 1) / log_buffer_size * log_buffer_size;
}

-- where the next record goes in the buffer
abbrev pub offset_in_buf : LogManager → ℕ
offset_in_buf lm = lm.write_offset % log_buffer_size

abbrev pub redo_record : LogManager → ℕ → ℕ → ℕ → Lrd
redo_record lm txid block len = record Lrd.default {
  logtid = as_u32 txid;
  backchain = as_u32 lm.prev_record_offset;
  type_ = log_redopage;
  length = as_u16 len;
  redopage_type = log_inode;
  redopage_pxd = Pxd.set_length 1 (Pxd.set_address block Pxd.default);
}

abbrev pub commit_record : LogManager → ℕ → Lrd
commit_record lm txid = record Lrd.default {
  logtid = as_u32 txid;
  backchain = as_u32 lm.prev_record_offset;
  type_ = log_commit;
}

-- A record written at the manager's position.
abbrev pub put_record : LogManager → Lrd → List ℕ → LogManager
put_record lm lrd d =
    let off = offset_in_buf lm in
    record lm {
      log_buffer = copy_slice (copy_slice lm.log_buffer off (lrd_bytes lrd)) (off + lrd_size) d;
      buffer_dirty = true;
      write_offset = lm.write_offset + lrd_size + length d;
    }

module _ {S : Type 0} (storage : Storage S) where
  unfoldable pub read_super : S → ℕ → Option LogSuper
  read_super s log_base = elim (storage.read_bytes s (log_base + block_size) block_size) [
    | Read.bytes d ↦ some (parse_super d)
    | Read.unexpected_eof ↦ none
    | Read.failed ↦ none
  ]

  abbrev pub read_page : S → LogManager → ℕ → Read
  read_page s lm page_num = storage.read_bytes s (page_offset lm page_num) logpsize

  abbrev pub write_page : S → LogManager → ℕ → List ℕ → Bool × S
  write_page s lm page_num d = storage.write_bytes s (page_offset lm page_num) d

  abbrev pub write_super : S → LogManager → LogSuper → Bool × S
  write_super s lm super_block =
      storage.write_bytes s (lm.log_base + block_size) (super_bytes super_block)

  -- The loop of `flush_journal`, with `count` pages left from the one at `i` on.
  unfoldable pub write_pages : ℕ → ℕ → ℕ → S → LogManager → Bool × S
  write_pages zero i start_page s lm = (true, s)
  write_pages (suc count) i start_page s lm =
      let buf_start = i * logpsize in
      let buf_end = min (buf_start + logpsize) (length lm.log_buffer) in
      let chunk = take (buf_end - buf_start) (drop buf_start lm.log_buffer) in
      let (fine, t) = write_page s lm (as_u32 (start_page + i)) chunk in
      let rest = write_pages count (i + 1) start_page t lm in if fine then rest else (false, t)

  unfoldable pub flush_journal : S → LogManager → Bool × S × LogManager
  unfolding write_pages
  flush_journal s lm =
      let buffer_start = lm.write_offset - lm.write_offset % log_buffer_size in
      let bytes_in_buffer = lm.write_offset - buffer_start in
      let dirty_pages = (bytes_in_buffer + logpsize - 1) / logpsize in
      let start_page = as_u32 (buffer_start / logpsize) in
      let (wrote, s1) =
        if lm.buffer_dirty && ltb 0 lm.write_offset
        then write_pages dirty_pages 0 start_page s lm
        else (true, s) in
      let (flushed, s2) = storage.flush_metadata s1 in
      let (synced, s3) = storage.sync s2 in
      let ended = record lm { logsuper = LogSuper.set_end (as_u32 lm.write_offset) lm.logsuper } in
      let (stored, s4) = write_super s3 ended ended.logsuper in
      if not wrote
      then (false, s1, lm)
      else if not flushed
      then (false, s2, lm)
      else if not synced
      then (false, s3, lm)
      else (stored, s4, ended)

  -- The first lines of both operations: a flush where `record_total` bytes do not fit.
  unfoldable pub make_room : S → LogManager → ℕ → Bool × S × LogManager
  unfolding flush_journal
  make_room s lm record_total =
      let (fine, t, q) = flush_journal s lm in
      if not (ltb log_buffer_size (offset_in_buf lm + record_total))
      then (true, s, lm)
      else if fine
      then (true, t, advance q)
      else (false, t, q)

  unfoldable pub append_log_record : S → LogManager → ℕ → ℕ → List ℕ → Outcome × S × LogManager
  unfolding make_room
  append_log_record s lm txid block d =
      let (fine, t, q) = make_room s lm (lrd_size + length d) in
      if not fine
      then (Outcome.failed, t, q)
      else if ltb (length q.log_buffer) (offset_in_buf q + lrd_size + length d)
      then (Outcome.panicked, t, q)
      else (
        Outcome.done,
        t,
        record (put_record q (redo_record q txid block (length d)) d) {
          prev_record_offset = q.write_offset;
        },
      )

  unfoldable pub commit_transaction : S → LogManager → ℕ → Outcome × S × LogManager
  unfolding make_room flush_journal
  commit_transaction s lm txid =
      let (fine, t, q) = make_room s lm lrd_size in
      let (flushed, u, p) = flush_journal t (put_record q (commit_record q txid) []) in
      if not fine
      then (Outcome.failed, t, q)
      else if ltb (length q.log_buffer) (offset_in_buf q + lrd_size)
      then (Outcome.panicked, t, q)
      else if flushed
      then (Outcome.done, u, record p { prev_record_offset = 0 })
      else (Outcome.failed, u, p)
