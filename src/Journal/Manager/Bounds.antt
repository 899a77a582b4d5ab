-- ===== src/Journal/Manager/Bounds.antt =====
-- Where src/journal/logmgr.rs writes: inside its buffer, and ever further on in the log.
use jfsfuse.Prelude.{
  ℕ, ◌+◌, ◌≤◌, ◌≡◌, refl, ◌∙◌, ◌≢◌, inl, inr, true, false, List, ◌++◌, arith, ltb, ge→ltb, tests,
  Bool-cases, length, take, drop, replicate, length-append, length-take, length-drop,
  length-replicate,
}
use jfsfuse.Types.Lrd.{lrd_size, lrd_bytes}
use jfsfuse.Storage.Trait.{Storage}
use jfsfuse.Journal.Manager.{
  LogManager, Outcome, log_buffer_size, copy_slice, advance, offset_in_buf, redo_record, put_record,
  flush_journal, make_room, append_log_record,
}
use jfsfuse.Journal.Manager.Records.{length-lrd_bytes, make_room_keeps}

advance-offset_in_buf : (lm : LogManager) → offset_in_buf (advance lm) ≡ 0
advance-offset_in_buf lm = omega arith

length-copy_slice :
    (b d : List ℕ) (off : ℕ) → off + length d ≤ length b → length (copy_slice b off d) ≡ length b
length-copy_slice b d off h =
    rw
      (
        length-append (take off b ++ d) (drop (off + length d) b),
        length-append (take off b) d,
        length-take off b,
        length-drop (off + length d) b,
      )
      (omega arith)

length-put_record :
    (p : LogManager) (d : List ℕ) (off : ℕ) (x : List ℕ)
    → length x ≡ lrd_size
    → off + lrd_size + length d ≤ length p.log_buffer
    → length (copy_slice (copy_slice p.log_buffer off x) (off + lrd_size) d) ≡ length p.log_buffer
length-put_record p d off x e h =
    let inner = length-copy_slice p.log_buffer x off (omega arith) in
    length-copy_slice (copy_slice p.log_buffer off x) d (off + lrd_size) (omega (arith, inner))
    ∙ inner

module _ {S : Type 0} (storage : Storage S) where
  flush_journal_keeps :
      (s : S) (lm : LogManager)
      → ((flush_journal storage s lm).2.log_buffer ≡ lm.log_buffer)
        × ((flush_journal storage s lm).2.write_offset ≡ lm.write_offset)
  unfolding flush_journal
  flush_journal_keeps s lm = ground arith

  make_room_fits :
      (s : S) (lm : LogManager) (n : ℕ)
      → length lm.log_buffer ≡ log_buffer_size
      → n ≤ log_buffer_size
      → (make_room storage s lm n).0 ≡ true
      → (offset_in_buf (make_room storage s lm n).2 + n ≤ log_buffer_size)
        × (length (make_room storage s lm n).2.log_buffer ≡ log_buffer_size)
        × (lm.write_offset ≤ (make_room storage s lm n).2.write_offset)
  unfolding make_room
  make_room_fits s lm n full h fine =
      let keeps = flush_journal_keeps s lm in
      let zeros : List ℕ = replicate (length (flush_journal storage s lm).2.log_buffer) 0 in
      let filled : length zeros ≡ length (flush_journal storage s lm).2.log_buffer =
        length-replicate (length (flush_journal storage s lm).2.log_buffer) 0 in
      elim (Bool-cases (ltb log_buffer_size (offset_in_buf lm + n))) [
        | inr small ↦
            let runs : make_room storage s lm n ≡ (true, s, lm) = rw (small, make_room) refl in
            rw runs (omega (tests, small), full, omega arith)
        | inl big ↦ elim (Bool-cases (flush_journal storage s lm).0) [
          | inr bad ↦ absurd (ground arith)
          | inl flushed ↦
              let q = (flush_journal storage s lm).2 in
              let runs : make_room storage s lm n
                  ≡ (true, (flush_journal storage s lm).1, advance q) =
                rw (big, flushed, make_room) refl in
              rw runs (
                omega (arith, advance-offset_in_buf q),
                filled ∙ rw keeps.0 full,
                omega (arith, keeps.1),
              )
        ]
      ]

  -- Appending at most 8156 bytes with a buffer of 8192 bytes does not panic and keeps the
  -- buffer's size, whatever the storage answers. Where it succeeds, the write offset has grown
  -- by at least the record's size, whatever the size of the log.
  pub append_log_record-offset_in_buf :
      (s : S) (lm : LogManager) (txid block : ℕ) (d : List ℕ)
      → length lm.log_buffer ≡ log_buffer_size
      → lrd_size + length d ≤ log_buffer_size
      → let (outcome, t, q) = append_log_record storage s lm txid block d in
        (outcome ≢ Outcome.panicked)
        × (length q.log_buffer ≡ log_buffer_size)
        × (outcome ≡ Outcome.done → lm.write_offset + lrd_size + length d ≤ q.write_offset)
  unfolding append_log_record
  append_log_record-offset_in_buf s lm txid block d full h =
      let p = (make_room storage s lm (lrd_size + length d)).2 in
      let keeps = make_room_keeps storage s lm (lrd_size + length d) in
      let kept : length p.log_buffer ≡ log_buffer_size = keeps.0 ∙ full in
      elim (Bool-cases (make_room storage s lm (lrd_size + length d)).0) [
        | inr bad ↦
            let runs : append_log_record storage s lm txid block d
                ≡ (Outcome.failed, (make_room storage s lm (lrd_size + length d)).1, p) =
              rw (bad, append_log_record) refl in
            rw runs (λ e. ground (arith, e), kept, λ e. absurd (ground (arith, e)))
        | inl fine ↦
            let fits = make_room_fits s lm (lrd_size + length d) full h fine in
            let room : ltb (length p.log_buffer) (offset_in_buf p + lrd_size + length d) ≡ false =
              ge→ltb (length p.log_buffer) (offset_in_buf p + lrd_size + length d)
                (omega (arith, kept, fits.0)) in
            let runs : append_log_record storage s lm txid block d ≡ (
              Outcome.done,
              (make_room storage s lm (lrd_size + length d)).1,
              record (put_record p (redo_record p txid block (length d)) d) {
                prev_record_offset = p.write_offset;
              },
            ) =
              rw (fine, room, append_log_record) refl in
            rw runs (
              λ e. ground (arith, e),
              length-put_record p d (offset_in_buf p)
                    (lrd_bytes (redo_record p txid block (length d)))
                    (length-lrd_bytes (redo_record p txid block (length d)))
                    (omega (arith, kept, fits.0))
                  ∙ kept,
              λ e. omega (arith, fits.2),
            )
      ]
