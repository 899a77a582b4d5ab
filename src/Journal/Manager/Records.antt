-- ===== src/Journal/Manager/Records.antt =====
-- What src/journal/logmgr.rs leaves in the log's buffer, and what the reader of
-- src/journal/recovery.rs takes out of it.
use jfsfuse.Prelude.{
  ℕ, ◌+◌, ◌%◌, ◌≤◌, ◌<◌, ◌≡◌, refl, sym, ap, ◌∙◌, inl, inr, true, false, some, List, [], ◌∷◌, ◌++◌,
  arith, ltb, ge→ltb, gt→leb, tests, Bool-cases, length, take, drop, replicate, length-append,
  length-take, take-append, drop-append, length-replicate, u32_mod, as_u16,
}
use mathlib.Core.List.{append_assoc}
use jfsfuse.Types.Pxd
use jfsfuse.Types.Pxd.Fields.{set_length-IsWords, set_address-IsWords}
use jfsfuse.Types.Lrd.{Lrd, lrd_size, lrd_bytes, parse_lrd}
use jfsfuse.Types.Lrd.Bytes.{IsWords, parse_lrd-lrd_bytes}
use jfsfuse.Storage.Trait.{Storage, Read}
use jfsfuse.Journal.Reader.{
  LogReader, Next, limit, rec_total, read_bytes_eof_ok, starts_with_zeros, payload, next_forward,
}
use jfsfuse.Journal.Manager.{
  log_buffer_size, LogManager, Outcome, copy_slice, offset_in_buf, redo_record, put_record,
  flush_journal, make_room, append_log_record,
}

-- Two adjacent slices written.
copy_slice-copy_slice :
    (b x d : List ℕ) (off n : ℕ)
    → n ≡ length x
    → off + n + length d ≤ length b
    → copy_slice (copy_slice b off x) (off + n) d
      ≡ take off b ++ (x ++ (d ++ drop (off + n + length d) (copy_slice b off x)))
copy_slice-copy_slice b x d off n e h =
    let start : length (take off b ++ x) ≡ off + n =
      length-append (take off b) x ∙ rw (length-take off b) (omega arith) in
    let after = drop (off + length x) b in
    let first : take (off + n) (copy_slice b off x) ≡ take off b ++ x =
      ap (λ k. take k ((take off b ++ x) ++ after)) (sym start)
      ∙ take-append (take off b ++ x) after in
    let rest = drop (off + n + length d) (copy_slice b off x) in
    rw first (append_assoc (take off b ++ x) d rest ∙ append_assoc (take off b) x (d ++ rest))

redo_record-IsWords :
    (lm : LogManager) (txid block len : ℕ) → IsWords (redo_record lm txid block len)
redo_record-IsWords lm txid block len = record {
  logtid_u32 = omega arith;
  backchain_u32 = omega arith;
  type_u16 = omega arith;
  length_u16 = omega arith;
  aggregate_u32 = omega arith;
  fileset_u32 = omega arith;
  inode_u32 = omega arith;
  redopage_type_u16 = omega arith;
  l2linesize_u16 = omega arith;
  pxd_words = set_length-IsWords 1 (set_address-IsWords Pxd.default block);
}

pub length-lrd_bytes : (r : Lrd) → length (lrd_bytes r) ≡ lrd_size
unfolding lrd_bytes Pxd.into_bytes
length-lrd_bytes r = refl

-- What stands in the buffer from a record on.
put_record_reads :
    (p : LogManager) (lrd : Lrd) (d : List ℕ)
    → offset_in_buf p + lrd_size + length d ≤ length p.log_buffer
    → (rest : List ℕ) × (drop (offset_in_buf p) (put_record p lrd d).log_buffer
        ≡ lrd_bytes lrd ++ rest)
      × (take (length d) (drop (offset_in_buf p + lrd_size) (put_record p lrd d).log_buffer) ≡ d)
put_record_reads p lrd d h =
    let off = offset_in_buf p in
    let x = lrd_bytes lrd in
    let b = p.log_buffer in
    let before : length (take off b) ≡ off = length-take off b ∙ omega arith in
    let start : length (take off b ++ x) ≡ off + lrd_size =
      length-append (take off b) x ∙ rw (before, length-lrd_bytes lrd) refl in
    let tail_ = drop (off + lrd_size + length d) (copy_slice b off x) in
    let whole = copy_slice-copy_slice b x d off lrd_size (sym (length-lrd_bytes lrd)) h in
    (
      d ++ tail_,
      rw whole (
          ap (λ k. drop k (take off b ++ (x ++ (d ++ tail_)))) (sym before)
          ∙ drop-append (take off b) (x ++ (d ++ tail_))),
      rw whole (
          ap (λ z. take (length d) (drop (off + lrd_size) z))
            (sym (append_assoc (take off b) x (d ++ tail_)))
          ∙ ap (λ k. take (length d) (drop k ((take off b ++ x) ++ (d ++ tail_)))) (sym start)
          ∙ ap (λ z. take (length d) z) (drop-append (take off b ++ x) (d ++ tail_))
          ∙ take-append d tail_),
    )

-- the first word of a record of a transaction
lrd_bytes_nonzero :
    (r : Lrd) (rest : List ℕ)
    → 0 < r.logtid
    → r.logtid < u32_mod
    → starts_with_zeros (take 4 (lrd_bytes r ++ rest)) ≡ false
unfolding lrd_bytes Pxd.into_bytes
lrd_bytes_nonzero r rest h k = ground arith

module _ {S : Type 0} (storage : Storage S) where
  pub make_room_keeps :
      (s : S) (lm : LogManager) (n : ℕ)
      → (length (make_room storage s lm n).2.log_buffer ≡ length lm.log_buffer)
        × ((make_room storage s lm n).2.prev_record_offset ≡ lm.prev_record_offset)
  unfolding make_room flush_journal
  make_room_keeps s lm n =
      (let zeros : List ℕ = replicate (length lm.log_buffer) 0 in
        let filled : length zeros ≡ length lm.log_buffer =
          length-replicate (length lm.log_buffer) 0 in
        ground (arith, filled))

  append_log_record_done :
      (s t : S) (lm q : LogManager) (txid block : ℕ) (d : List ℕ)
      → append_log_record storage s lm txid block d ≡ (Outcome.done, t, q)
      → (p : LogManager) × (offset_in_buf p + lrd_size + length d ≤ length lm.log_buffer)
        × (length p.log_buffer ≡ length lm.log_buffer)
        × (q ≡ record (put_record p (redo_record lm txid block (length d)) d) {
          prev_record_offset = p.write_offset;
        })
  unfolding append_log_record
  append_log_record_done s t lm q txid block d e =
      let p = (make_room storage s lm (lrd_size + length d)).2 in
      let keeps = make_room_keeps s lm (lrd_size + length d) in
      let runs : (make_room storage s lm (lrd_size + length d)).0 ≡ true
          → ltb (length p.log_buffer) (offset_in_buf p + lrd_size + length d) ≡ false
          → append_log_record storage s lm txid block d ≡ (
            Outcome.done,
            (make_room storage s lm (lrd_size + length d)).1,
            record (put_record p (redo_record p txid block (length d)) d) {
              prev_record_offset = p.write_offset;
            },
          ) =
        λ fine fits. rw (fine, fits, append_log_record) refl in
      elim (Bool-cases (make_room storage s lm (lrd_size + length d)).0) [
        | inr bad ↦ absurd (ground arith)
        | inl fine ↦
            elim (Bool-cases (ltb (length p.log_buffer) (offset_in_buf p + lrd_size + length d))) [
              | inl over ↦ absurd (ground arith)
              | inr fits ↦ (
                p,
                omega (tests, keeps.0),
                keeps.0,
                sym (ap (λ x. x.2) (sym (runs fine fits) ∙ e)) ∙ rw (keeps.1) refl,
              )
            ]
      ]

  payload_shown :
      (u : S) (pos : ℕ) (d : List ℕ)
      → storage.read_bytes u pos (length d) ≡ Read.bytes d
      → payload storage u pos (length d) ≡ some d
  payload_shown u pos [] e = refl
  payload_shown u pos (x ∷ d) e = rw e (ground arith)

  next_forward_found :
      (u : S) (r : LogReader) (peek b d : List ℕ)
      → r.pos < limit r
      → storage.read_bytes u r.pos 4 ≡ Read.bytes peek
      → starts_with_zeros peek ≡ false
      → storage.read_bytes u r.pos lrd_size ≡ Read.bytes b
      → length b ≡ lrd_size
      → payload storage u (r.pos + lrd_size) (parse_lrd b).length ≡ some d
      → next_forward storage u r
        ≡ Next.found (parse_lrd b) d (r.pos + rec_total (parse_lrd b).length)
  unfolding next_forward read_bytes_eof_ok
  next_forward_found u r peek b d inside e1 e2 e3 e4 e5 =
      let open_ = gt→leb (limit r) r.pos inside in
      let full : ltb (length b) lrd_size ≡ false = ge→ltb (length b) lrd_size (omega arith) in
      rw (open_, e1, e2, e3, full, e5, next_forward, read_bytes_eof_ok) refl

  -- A manager with a buffer of 8192 bytes has appended a record of a transaction whose
  -- identifier is not 0 and below 2^32. If the log shows the reader the bytes of that buffer
  -- from `base` on, and the reader stands, inside the log, where the record begins, then the
  -- reader's next record is the one appended, with its data, and it moves on by the record's
  -- size up to a multiple of 4.
  pub next_forward-append_log_record :
      (s t u : S) (lm q : LogManager) (txid block base : ℕ) (d : List ℕ) (r : LogReader)
      → length lm.log_buffer ≡ log_buffer_size
      → append_log_record storage s lm txid block d ≡ (Outcome.done, t, q)
      → 0 < txid
      → txid < u32_mod
      → ((o n : ℕ)
          → o + n ≤ log_buffer_size
          → storage.read_bytes u (base + o) n ≡ Read.bytes (take n (drop o q.log_buffer)))
      → r.pos ≡ base + q.prev_record_offset % log_buffer_size
      → r.pos < limit r
      → next_forward storage u r
        ≡ Next.found (redo_record lm txid block (length d)) d (r.pos + rec_total (length d))
  next_forward-append_log_record s t u lm q txid block base d r full e pos_ word shown at inside =
      let (p, fits, kept, is) = append_log_record_done s t lm q txid block d e in
      let lrd = redo_record lm txid block (length d) in
      let off = offset_in_buf p in
      let (rest, head, tail_) = put_record_reads p lrd d (omega (arith, kept)) in
      let at_ : r.pos ≡ base + off =
        at ∙ ap (λ k. base + k.prev_record_offset % log_buffer_size) is in
      let long_ : as_u16 (length d) ≡ length d = omega arith in
      let peek_ : storage.read_bytes u r.pos 4 ≡ Read.bytes (take 4 (lrd_bytes lrd ++ rest)) =
        rw at_ (
          shown off 4 (omega arith)
          ∙ ap (λ k. Read.bytes (take 4 (drop off k.log_buffer))) is
          ∙ ap (λ z. Read.bytes (take 4 z)) head) in
      let lrd_ : storage.read_bytes u r.pos lrd_size ≡ Read.bytes (lrd_bytes lrd) = rw at_ (
        shown off lrd_size (omega arith)
        ∙ ap (λ k. Read.bytes (take lrd_size (drop off k.log_buffer))) is
        ∙ ap (λ z. Read.bytes (take lrd_size z)) head
        ∙ ap Read.bytes (
            ap (λ k. take k (lrd_bytes lrd ++ rest)) (sym (length-lrd_bytes lrd))
            ∙ take-append (lrd_bytes lrd) rest)) in
      let data_ : storage.read_bytes u (r.pos + lrd_size) (length d) ≡ Read.bytes d =
        ap (λ k. storage.read_bytes u k (length d)) (omega arith)
        ∙ shown (off + lrd_size) (length d) (omega arith)
        ∙ ap (λ k. Read.bytes (take (length d) (drop (off + lrd_size) k.log_buffer))) is
        ∙ ap Read.bytes tail_ in
      let some_ : starts_with_zeros (take 4 (lrd_bytes lrd ++ rest)) ≡ false =
        lrd_bytes_nonzero lrd rest (omega arith) (omega arith) in
      let back = parse_lrd-lrd_bytes lrd (redo_record-IsWords lm txid block (length d)) in
      next_forward_found u r (take 4 (lrd_bytes lrd ++ rest)) (lrd_bytes lrd) d inside peek_ some_
        lrd_ (length-lrd_bytes lrd)
        (rw back (rw long_ (payload_shown u (r.pos + lrd_size) d data_)))
      ∙ rw back (rw long_ refl)
