-- ===== src/Volume/Inode/Find.antt =====
-- What `Inode::find_inode_page` of src/inode.rs finds in the inode table.
use jfsfuse.Prelude.{
  ℕ, zero, suc, ◌+◌, ◌≤◌, ◌<◌, ◌≡◌, refl, inl, inr, tests, Option, none, some, List, arith, leb,
  Bool-cases, length, ◌≢◌, ◌⊎◌, Option-cases, ap, ◌∙◌,
}
use jfsfuse.Storage.Cache
use jfsfuse.Storage.Cache.{CachedPage}
use jfsfuse.Volume.Step.{Answer, VolumeError, Device, World}
use jfsfuse.Volume.Inode.{inosperpage, table_page, scanned, scan_block, scan_table, find_inode_page}
use jfsfuse.Volume.Inode.Scan.{
  IsTarget, target-IsTarget, IsWithout, IsFirst, Scanned, scan_page-Scanned,
}

module _ {S C : Type 0} (dev : Device S C) where
  -- What a block of the table holds: the data of a page that is cached for it under any inode, or
  -- else what the storage reads.
  abbrev pub IsPage : World S C → ℕ → List ℕ → Type 0
  IsPage w b d =
      ((p : CachedPage) × (Cache.peek_block dev.lru w.volume.page_cache b ≡ some p) × (p.data_ ≡ d))
      ⊎ ((Cache.peek_block dev.lru w.volume.page_cache b ≡ none)
          × (dev.storage.read_block w.store b ≡ some d))

  abbrev pub IsFailed : World S C → ℕ → Type 0
  IsFailed w b =
      (Cache.peek_block dev.lru w.volume.page_cache b ≡ none)
      × (dev.storage.read_block w.store b ≡ none)

  -- Every page of the table from the block `first` on and before `last` can be read, and has no inode
  -- of that fileset and number.
  abbrev pub IsAbsent : ℕ × ℕ → World S C → ℕ → ℕ → Type 0
  IsAbsent goal w first last =
      (b : ℕ)
      → first ≤ b
      → b < last
      → b < dev.agg_size
      → (d : List ℕ) × IsPage w b d × IsWithout goal d 0 8

  pub record IsFound (goal : ℕ × ℕ) (w : World S C) (first last block off : ℕ) : Type 0 where
    pub low : first ≤ block
    pub high : block < last
    pub inside : block < dev.agg_size
    pub page : List ℕ
    pub read : IsPage w block page
    pub found : IsFirst goal page 0 8 off
    pub before : IsAbsent goal w first block

  -- A page of the table cannot be read, and the pages before have no such inode.
  abbrev pub IsUnreadable : ℕ × ℕ → World S C → ℕ → ℕ → Type 0
  IsUnreadable goal w first last =
      (b : ℕ) × (first ≤ b)
      × (b < last)
      × (b < dev.agg_size)
      × IsFailed w b
      × IsAbsent goal w first b

  -- A page of the table has fewer bytes than eight inodes, and the pages before have no such inode.
  abbrev pub IsShort : ℕ × ℕ → World S C → ℕ → ℕ → Type 0
  IsShort goal w first last =
      (b : ℕ) × (first ≤ b)
      × (b < last)
      × (b < dev.agg_size)
      × (d : List ℕ) × IsPage w b d
      × (length d < 4096)
      × IsAbsent goal w first b

  -- What the answer of a search says.
  abbrev pub Searched : ℕ × ℕ → World S C → ℕ → ℕ → Answer (ℕ × ℕ) → Type 0
  Searched goal w first last (Answer.ok (block, off)) = IsFound goal w first last block off
  Searched goal w first last (Answer.err VolumeError.inode_not_found) = IsAbsent goal w first last
  Searched goal w first last (Answer.err VolumeError.failed) = IsUnreadable goal w first last
  Searched goal w first last (Answer.err e) = ⊥
  Searched goal w first last Answer.panicked = IsShort goal w first last

  table_page-IsPage :
      (block : ℕ) (w : World S C) (d : List ℕ)
      → table_page dev block w ≡ Answer.ok d
      → IsPage w block d
  unfolding table_page
  table_page-IsPage block w d h =
      elim (Option-cases (Cache.peek_block dev.lru w.volume.page_cache block)) [
        | inr (p, e) ↦ inl (p, e, cc (rw (e, table_page) at h))
        | inl e ↦ elim (Option-cases (dev.storage.read_block w.store block)) [
          | inl e2 ↦ absurd (cc (rw (e, e2, table_page) at h))
          | inr (c, e2) ↦
              let same : Answer.ok c ≡ Answer.ok d = rw (e, e2, table_page) at h in
              let same_ : c ≡ d = cc same in inr (e, e2 ∙ ap some same_)
        ]
      ]

  table_page-IsFailed :
      (block : ℕ) (w : World S C) (e : VolumeError)
      → table_page dev block w ≡ Answer.err e
      → (e ≡ VolumeError.failed) × IsFailed w block
  unfolding table_page
  table_page-IsFailed block w e h =
      elim (Option-cases (Cache.peek_block dev.lru w.volume.page_cache block)) [
        | inr (p, e1) ↦ absurd (cc (rw (e1, table_page) at h))
        | inl e1 ↦ elim (Option-cases (dev.storage.read_block w.store block)) [
          | inl e2 ↦
              let fails : Answer (List ℕ) = Answer.err VolumeError.failed in
              let same : fails ≡ Answer.err e = rw (e1, e2, table_page) at h in (cc same, (e1, e2))
          | inr (c, e2) ↦ absurd (cc (rw (e1, e2, table_page) at h))
        ]
      ]

  table_page_done : (block : ℕ) (w : World S C) → table_page dev block w ≢ Answer.panicked
  unfolding table_page
  table_page_done block w h = ground arith

  -- one more block, in front
  absent_more :
      (goal : ℕ × ℕ) (w : World S C) (first last : ℕ)
      → (first < dev.agg_size → (d : List ℕ) × IsPage w first d × IsWithout goal d 0 8)
      → IsAbsent goal w (first + 1) last
      → IsAbsent goal w first last
  absent_more goal w first last here h b low high inside = elim (Bool-cases (leb b first)) [
    | inl y ↦ let same : b ≡ first = omega tests in rw same (here (omega arith))
    | inr m ↦ h b (omega tests) high inside
  ]

  Searched-more :
      (goal : ℕ × ℕ) (w : World S C) (first last : ℕ) (a : Answer (ℕ × ℕ))
      → (first < dev.agg_size → (d : List ℕ) × IsPage w first d × IsWithout goal d 0 8)
      → Searched goal w (first + 1) last a
      → Searched goal w first last a
  Searched-more goal w first last (Answer.ok (block, off)) here s = record {
    low = omega (arith, s.low);
    high = s.high;
    inside = s.inside;
    page = s.page;
    read = s.read;
    found = s.found;
    before = absent_more goal w first block here s.before;
  }
  Searched-more goal w first last (Answer.err VolumeError.inode_not_found) here s =
      absent_more goal w first last here s
  Searched-more goal w first last (Answer.err VolumeError.failed) here
        (b, low, high, inside, e, before) =
      (b, omega arith, high, inside, e, absent_more goal w first b here before)
  Searched-more goal w first last (Answer.err x) here s = s
  Searched-more goal w first last Answer.panicked here
        (b, low, high, inside, d, page, short, before) =
      (b, omega arith, high, inside, d, page, short, absent_more goal w first b here before)

  after_page :
      (goal : ℕ × ℕ) (w : World S C) (block last : ℕ) (rest : Answer (ℕ × ℕ)) (d : List ℕ)
      (s : Answer (Option ℕ))
      → block < last
      → block < dev.agg_size
      → IsPage w block d
      → Scanned goal d 0 8 s
      → Searched goal w (block + 1) last rest
      → Searched goal w block last (scanned dev block rest s)
  after_page goal w block last rest d (Answer.ok none) lt inside page here h =
      Searched-more goal w block last rest (λ _. (d, page, here)) h
  after_page goal w block last rest d (Answer.ok (some off)) lt inside page here h = record {
    low = omega arith;
    high = lt;
    inside = inside;
    page = d;
    read = page;
    found = here;
    before = λ b low high. absurd (omega arith);
  }
  after_page goal w block last rest d (Answer.err x) lt inside page here h = absurd here
  after_page goal w block last rest d Answer.panicked lt inside page here h =
      (block, omega arith, lt, inside, d, page, here, λ b low high. absurd (omega arith))

  after_read :
      (goal : ℕ × ℕ) (w : World S C) (block last : ℕ) (rest : Answer (ℕ × ℕ)) (a : Answer (List ℕ))
      → block < last
      → block < dev.agg_size
      → table_page dev block w ≡ a
      → Searched goal w (block + 1) last rest
      → Searched goal w block last (scan_block dev block goal rest a)
  after_read goal w block last rest (Answer.ok d) lt inside page h =
      after_page goal w block last rest d _ lt inside (table_page-IsPage block w d page)
        (scan_page-Scanned inosperpage 0 goal d) h
  after_read goal w block last rest (Answer.err x) lt inside page h =
      let (failed, none_) = table_page-IsFailed block w x page in
      rw failed (block, omega arith, lt, inside, none_, λ b low high. absurd (omega arith))
  after_read goal w block last rest Answer.panicked lt inside page h =
      absurd (table_page_done block w page)

  scan_table-Searched :
      (rounds block : ℕ) (goal : ℕ × ℕ) (w : World S C)
      → Searched goal w block (block + rounds) (scan_table dev rounds block goal w)
  unfolding scan_table
  scan_table-Searched zero block goal w = λ b low high. absurd (omega arith)
  scan_table-Searched (suc rounds) block goal w =
      let next : block + suc rounds ≡ block + 1 + rounds = omega arith in
      let rest = scan_table-Searched rounds (block + 1) goal w in
      elim (Bool-cases (leb dev.agg_size block)) [
        | inl out ↦
            rw (out, next)
              (Searched-more goal w block (block + 1 + rounds) _ (λ lt. absurd (omega tests)) rest)
        | inr inside ↦
            rw (inside, next)
              (after_read goal w block (block + 1 + rounds) _ _ (omega arith) (omega tests) refl
                rest)
      ]

  -- The search for an inode with fileset `fs` and number `num` ends in the way its answer says. Where
  -- it answers a block and an offset, they are those of the first such inode in the table, at a
  -- multiple of 512 in a page that has its 512 bytes, and all pages before were read and have no such
  -- inode. The answer that there is none comes only where all pages of the table and of the 32 blocks
  -- behind it, as far as the aggregate goes, were read and have none. The only other error is that of a
  -- page that is not cached and cannot be read, and the code panics only at a page of fewer than 4096
  -- bytes; in both cases the pages before were read and have no such inode.
  pub find_inode_page-Searched :
      (ino fs num : ℕ) (w : World S C)
      → IsTarget ino fs num
      → Searched
          (fs, num)
          w
          dev.table_start
          (dev.table_start + (dev.table_len + 32))
          (find_inode_page dev ino w)
  unfolding find_inode_page
  find_inode_page-Searched ino fs num w h =
      rw (target-IsTarget ino fs num h)
        (scan_table-Searched (dev.table_len + 32) dev.table_start (fs, num) w)
