-- ===== src/Journal/Reader/Termination.antt =====
-- The loops of `find_end` and of the scan in `replay` (src/journal/recovery.rs) end within the
-- rounds that the model gives them.
use jfsfuse.Prelude.{
  ℕ, zero, suc, ◌+◌, ◌-◌, ◌*◌, ◌<◌, ◌≡◌, ◌≢◌, refl, ap, tests, ◌⊎◌, inl, inr, List, arith, ltb, leb,
  Bool-cases, Option-cases, length,
}
use jfsfuse.Types.Lrd.{Lrd, lrd_size, parse_lrd}
use jfsfuse.Types.LogSuper.{logpsize}
use jfsfuse.Storage.Trait.{Storage}
use jfsfuse.Journal.Reader.{
  LogReader, Next, limit, rec_total, read_bytes_eof_ok, starts_with_zeros, payload, next_forward,
  find_end_loop, find_end, scan_loop, Scan, with_record,
}

rec_total_advances : (len : ℕ) → 0 < rec_total len
rec_total_advances len = omega arith

module _ {S : Type 0} (storage : Storage S) where
  -- The loop of `find_end` ends within `n` rounds where fewer than `n` bytes are left, and `k` rounds
  -- more give the same.
  find_end_loop_ends :
      (n k : ℕ) (s : S) (r : LogReader) (pos : ℕ)
      → limit r - pos < n
      → (find_end_loop storage n s r pos ≢ Scan.unfinished)
        × (find_end_loop storage (n + k) s r pos ≡ find_end_loop storage n s r pos)
  unfolding find_end_loop
  find_end_loop_ends zero k s r pos h = absurd (omega arith)
  find_end_loop_ends (suc n) k s r pos h =
      let more : suc n + k ≡ suc (n + k) = omega arith in
      rw more (elim (Bool-cases (leb (limit r) pos)) [
        | inl e ↦ rw (e, find_end_loop) (λ q. cc q, refl)
        | inr e ↦ elim (Option-cases (read_bytes_eof_ok storage s pos 4)) [
          | inl e1 ↦ rw (e, e1, find_end_loop) (λ q. cc q, refl)
          | inr (peek, e1) ↦ elim (Bool-cases (starts_with_zeros peek)) [
            | inl e2 ↦ rw (e, e1, e2, find_end_loop) (λ q. cc q, refl)
            | inr e2 ↦ elim (Option-cases (read_bytes_eof_ok storage s pos lrd_size)) [
              | inl e3 ↦ rw (e, e1, e2, e3, find_end_loop) (λ q. cc q, refl)
              | inr (b, e3) ↦ elim (Bool-cases (ltb (length b) lrd_size)) [
                | inl e4 ↦ rw (e, e1, e2, e3, e4, find_end_loop) (λ q. cc q, refl)
                | inr e4 ↦
                    let next = pos + rec_total (parse_lrd b).length in
                    let below : pos < limit r = omega (tests, e) in
                    rw (e, e1, e2, e3, e4, find_end_loop)
                      (find_end_loop_ends n k s r next
                        (omega (arith, rec_total_advances (parse_lrd b).length)))
              ]
            ]
          ]
        ]
      ])

  next_forward-cases :
      (s : S) (r : LogReader)
      → (next_forward storage s r ≡ Next.failed)
        ⊎ (next_forward storage s r ≡ Next.finished)
        ⊎ ((f : Lrd × List ℕ) × (next_forward storage s r
              ≡ Next.found f.0 f.1 (r.pos + rec_total f.0.length))
            × (r.pos < limit r))
  unfolding next_forward
  next_forward-cases s r = elim (Bool-cases (leb (limit r) r.pos)) [
    | inl e ↦ inr (inl (rw (e, next_forward) refl))
    | inr e ↦ elim (Option-cases (read_bytes_eof_ok storage s r.pos 4)) [
      | inl e1 ↦ inl (rw (e, e1, next_forward) refl)
      | inr (peek, e1) ↦ elim (Bool-cases (starts_with_zeros peek)) [
        | inl e2 ↦ inr (inl (rw (e, e1, e2, next_forward) refl))
        | inr e2 ↦ elim (Option-cases (read_bytes_eof_ok storage s r.pos lrd_size)) [
          | inl e3 ↦ inl (rw (e, e1, e2, e3, next_forward) refl)
          | inr (b, e3) ↦ elim (Bool-cases (ltb (length b) lrd_size)) [
            | inl e4 ↦ inr (inl (rw (e, e1, e2, e3, e4, next_forward) refl))
            | inr e4 ↦
                let lrd = parse_lrd b in
                elim (Option-cases (payload storage s (r.pos + lrd_size) lrd.length)) [
                  | inl e5 ↦ inl (rw (e, e1, e2, e3, e4, e5, next_forward) refl)
                  | inr (d, e5) ↦ inr (
                      inr
                        ((lrd, d), rw (e, e1, e2, e3, e4, e5, next_forward) refl, omega (tests, e)))
                ]
          ]
        ]
      ]
    ]
  ]

  with_record_ends :
      (e : Lrd × List ℕ) (a : Scan (List (Lrd × List ℕ) × ℕ))
      → a ≢ Scan.unfinished
      → with_record e a ≢ Scan.unfinished
  with_record_ends e (Scan.ended (rs, last)) h = λ q. cc q
  with_record_ends e Scan.failed h = λ q. cc q
  with_record_ends e Scan.unfinished h = λ q. h q

  -- The same for the forward scan.
  scan_loop_ends :
      (n k : ℕ) (s : S) (r : LogReader) (log_end : ℕ)
      → limit r - r.pos < n
      → (scan_loop storage n s r log_end ≢ Scan.unfinished)
        × (scan_loop storage (n + k) s r log_end ≡ scan_loop storage n s r log_end)
  unfolding scan_loop
  scan_loop_ends zero k s r e h = absurd (omega arith)
  scan_loop_ends (suc n) k s r e h =
      let more : suc n + k ≡ suc (n + k) = omega arith in
      rw more (elim (next_forward-cases s r) [
        | inl c ↦ rw (c, scan_loop) (λ q. cc q, refl)
        | inr (inl c) ↦ rw (c, scan_loop) (λ q. cc q, refl)
        | inr (inr ((lrd, d), c, below)) ↦
            let pos = r.pos + rec_total lrd.length in
            let rest =
              scan_loop_ends n k s (record r { pos = pos }) e
                (omega (arith, rec_total_advances lrd.length)) in
            rw (c, scan_loop)
              (elim (Bool-cases (ltb e (pos - r.log_data_start))) [
                | inl y ↦ rw y (λ q. cc q, refl)
                | inr m ↦
                    rw m (with_record_ends (lrd, d) _ rest.0, ap (with_record (lrd, d)) rest.1)
              ])
      ])

  -- For a reader at the start of its log, the loops of `find_end` and of the forward scan end, by one
  -- of the code's exits or the error of a read, within one round more than the log has bytes, whatever
  -- the log holds. Any number of rounds more gives the same answer.
  pub find_end-scan_loop_settle :
      (k : ℕ) (s : S) (r : LogReader) (log_end : ℕ)
      → r.pos ≡ r.log_data_start
      → (find_end storage s r ≢ Scan.unfinished)
        × (find_end_loop storage (r.log_size * logpsize + 1 + k) s r r.log_data_start
            ≡ find_end storage s r)
        × (scan_loop storage (r.log_size * logpsize + 1) s r log_end ≢ Scan.unfinished)
        × (scan_loop storage (r.log_size * logpsize + 1 + k) s r log_end
            ≡ scan_loop storage (r.log_size * logpsize + 1) s r log_end)
  unfolding find_end
  find_end-scan_loop_settle k s r log_end start =
      let end_ =
        find_end_loop_ends (r.log_size * logpsize + 1) k s r r.log_data_start (omega arith) in
      let scan = scan_loop_ends (r.log_size * logpsize + 1) k s r log_end (omega arith) in
      (end_.0, end_.1, scan.0, scan.1)
