-- ===== src/Journal/Reader.antt =====
-- `LogReader` of src/journal/recovery.rs: the records of the log, read forward.
pub mod Termination
use jfsfuse.Prelude.{
  ℕ, zero, suc, ◌+◌, ◌-◌, ◌*◌, ◌/◌, Bool, true, false, ◌&&◌, ◌||◌, Option, none, some, List, [],
  ◌∷◌, ltb, leb, ◌==◌, if◌then◌else◌, length, replicate, byte,
}
use jfsfuse.Types.Lrd.{Lrd, lrd_size, parse_lrd}
use jfsfuse.Types.LogSuper
use jfsfuse.Types.LogSuper.{LogSuper, logpsize}
use jfsfuse.Storage.Trait.{Storage, Read}

pub record LogReader : Type 0 where
  pub log_end : ℕ
  pub log_start : ℕ
  pub log_data_start : ℕ
  pub log_size : ℕ
  pub wrapped : Bool
  pub pos : ℕ

-- `LogReader::new`
unfoldable pub new : LogSuper → ℕ → LogReader
new logsuper log_start = record {
  log_end = logsuper.end;
  log_start = 0;
  log_data_start = log_start;
  log_size = LogSuper.page_size logsuper;
  wrapped = false;
  pos = if ltb 0 logsuper.end then log_start + logsuper.end else log_start;
}

-- where the log area ends
abbrev pub limit : LogReader → ℕ
limit r = r.log_data_start + r.log_size * logpsize

-- What `next_forward` returns: a record and the position behind it.
pub data Next : Type 0 where
  found : Lrd → List ℕ → ℕ → Next
  finished failed : Next

-- How a loop over the log ends. `unfinished` is no end of the code's loop: it is the answer of the model
-- where the rounds are used up.
pub data Scan (A : Type 0) : Type 0 where
  ended : A → Scan A
  failed unfinished : Scan A

-- `records.push`, before the records of the rounds that follow
abbrev pub with_record :
    Lrd × List ℕ → Scan (List (Lrd × List ℕ) × ℕ) → Scan (List (Lrd × List ℕ) × ℕ)
with_record e (Scan.ended (rs, last)) = Scan.ended (e ∷ rs, last)
with_record e Scan.failed = Scan.failed
with_record e Scan.unfinished = Scan.unfinished

-- a record's size, up to the next multiple of 4
abbrev pub rec_total : ℕ → ℕ
rec_total data_len = (lrd_size + data_len + 3) / 4 * 4

abbrev pub starts_with_zeros : List ℕ → Bool
starts_with_zeros b =
    ltb (length b) 4 || ((byte b 0 == 0) && (byte b 1 == 0) && (byte b 2 == 0) && (byte b 3 == 0))

module _ {S : Type 0} (storage : Storage S) where
  unfoldable pub read_bytes_eof_ok : S → ℕ → ℕ → Option (List ℕ)
  read_bytes_eof_ok s offset len = elim (storage.read_bytes s offset len) [
    | Read.bytes d ↦ some d
    | Read.unexpected_eof ↦ some (replicate len 0)
    | Read.failed ↦ none
  ]

  -- The data behind a descriptor: no read is made of an empty payload.
  abbrev pub payload : S → ℕ → ℕ → Option (List ℕ)
  payload s offset len =
      let d : Option (List ℕ) = elim (storage.read_bytes s offset len) [
        | Read.bytes d ↦ some d
        | Read.unexpected_eof ↦ none
        | Read.failed ↦ none
      ] in
      if ltb 0 len then d else some []

  unfoldable pub next_forward : S → LogReader → Next
  next_forward s r =
      if leb (limit r) r.pos then Next.finished else elim (read_bytes_eof_ok s r.pos 4) [
        | none ↦ Next.failed
        | some peek ↦
            if starts_with_zeros peek
            then Next.finished
            else elim (read_bytes_eof_ok s r.pos lrd_size) [
              | none ↦ Next.failed
              | some b ↦
                  let lrd = parse_lrd b in
                  if ltb (length b) lrd_size
                  then Next.finished
                  else elim (payload s (r.pos + lrd_size) lrd.length) [
                    | none ↦ Next.failed
                    | some d ↦ Next.found lrd d (r.pos + rec_total lrd.length)
                  ]
            ]
      ]

  -- The loop of `find_end`, with a bound on its rounds.
  unfoldable pub find_end_loop : ℕ → S → LogReader → ℕ → Scan ℕ
  find_end_loop zero s r pos = Scan.unfinished
  find_end_loop (suc fuel) s r pos = elim (leb (limit r) pos) [
    | true ↦ Scan.ended pos
    | false ↦ elim (read_bytes_eof_ok s pos 4) [
      | none ↦ Scan.failed
      | some peek ↦ elim (starts_with_zeros peek) [
        | true ↦ Scan.ended pos
        | false ↦ elim (read_bytes_eof_ok s pos lrd_size) [
          | none ↦ Scan.failed
          | some b ↦ elim (ltb (length b) lrd_size) [
            | true ↦ Scan.ended pos
            | false ↦ find_end_loop fuel s r (pos + rec_total (parse_lrd b).length)
          ]
        ]
      ]
    ]
  ]

  unfoldable pub find_end : S → LogReader → Scan ℕ
  unfolding find_end_loop
  find_end s r = find_end_loop (r.log_size * logpsize + 1) s r r.log_data_start

  -- The forward scan of `replay`, with a bound on its rounds: the records up to the end of the log,
  -- and the reader's last position.
  unfoldable pub scan_loop : ℕ → S → LogReader → ℕ → Scan (List (Lrd × List ℕ) × ℕ)
  scan_loop zero s r log_end = Scan.unfinished
  scan_loop (suc fuel) s r log_end = elim (next_forward s r) [
    | Next.failed ↦ Scan.failed
    | Next.finished ↦ Scan.ended ([], r.pos)
    | Next.found lrd d pos ↦ elim (ltb log_end (pos - r.log_data_start)) [
      | true ↦ Scan.ended ([], pos)
      | false ↦ with_record (lrd, d) (scan_loop fuel s (record r { pos = pos }) log_end)
    ]
  ]
