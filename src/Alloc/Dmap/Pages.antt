-- ===== src/Alloc/Dmap/Pages.antt =====
-- The bitmap pages of src/alloc/dmap.rs: `new` reads them with `parse_dmap_page`, `commit` writes
-- them. The storage behind the map is an argument: its reads and writes may fail.
use jfsfuse.Prelude.{
  ℕ, zero, suc, ◌+◌, ◌-◌, ◌*◌, ◌/◌, ◌%◌, ◌^◌, ◌≤◌, ◌≡◌, refl, ◌∙◌, inl, inr, Bool, true, false, not,
  ◌&&◌, none, some, List, [], ◌∷◌, arith, ltb, leb, ◌==◌, if◌then◌else◌, Bool-cases, length, set,
  length-set, get_or-set_ne, byte, read_u32,
}
use jfsfuse.Storage.Trait.{Storage}
use jfsfuse.Alloc.Dmap.{BlockAllocMap, is_free, blocks_per_dmap}

-- offsets of the two bitmaps in a page
abbrev pub wmap_off : ℕ
wmap_off = 2048

abbrev pub pmap_off : ℕ
pmap_off = 3072

-- `for bit in 0..32`, with `count` bits left from `bit` on
unfoldable pub parse_bits : ℕ → ℕ → ℕ → ℕ → List Bool → List Bool
parse_bits zero bit word blk m = m
parse_bits (suc count) bit word blk m =
    parse_bits count (bit + 1) word blk
      (if ltb (blk + bit) (length m) then set m (blk + bit) (word / 2 ^ bit % 2 == 1) else m)

-- `for word_idx in 0..256`, with `count` words left from `idx` on
unfoldable pub parse_words : ℕ → ℕ → List ℕ → ℕ → List Bool → List Bool
parse_words zero idx page start m = m
parse_words (suc count) idx page start m =
    let off = pmap_off + idx * 4 in
    if ltb (length page) (off + 4)
    then m
    else parse_words count (idx + 1) page start
        (parse_bits 32 0 (read_u32 page off) (start + idx * 32) m)

unfoldable pub parse_dmap_page : List ℕ → ℕ → List Bool → List Bool
unfolding parse_words
parse_dmap_page page start m = parse_words 256 0 page start m

-- The word that `commit` builds for the 32 blocks from `blk` on: bit by bit, from `bit` on.
unfoldable pub word_of : ℕ → ℕ → BlockAllocMap → ℕ → ℕ
word_of zero bit a blk = 0
word_of (suc count) bit a blk =
    (if ltb (blk + bit) a.mapsize && is_free a.free_map (blk + bit) then 2 ^ bit else 0)
    + word_of count (bit + 1) a blk

unfoldable pub write_u32 : List ℕ → ℕ → ℕ → List ℕ
write_u32 page off w =
    set
      (set (set (set page off (w % 2 ^ 8)) (off + 1) (w / 2 ^ 8 % 2 ^ 8)) (off + 2)
        (w / 2 ^ 16 % 2 ^ 8))
      (off + 3) (w / 2 ^ 24 % 2 ^ 8)

unfoldable pub write_words : ℕ → ℕ → BlockAllocMap → ℕ → List ℕ → List ℕ
write_words zero idx a start page = page
write_words (suc count) idx a start page =
    let off = wmap_off + idx * 4 in
    write_words count (idx + 1) a start (
      if leb (off + 4) (length page)
      then write_u32 page off (word_of 32 0 a (start + idx * 32))
      else page)

-- The page that `commit` writes in place of a dirty one.
abbrev pub committed_page : BlockAllocMap → ℕ → List ℕ → List ℕ
committed_page a dmap_page page = write_words 256 0 a ((dmap_page - 1) * blocks_per_dmap) page

-- `write_u64`, as two 32-bit words
unfoldable pub write_u64 : List ℕ → ℕ → ℕ → List ℕ
write_u64 page off w = write_u32 (write_u32 page off (w % 2 ^ 32)) (off + 4) (w / 2 ^ 32)

module _ {S : Type 0} (storage : Storage S) (dmap_start : ℕ) where
  -- The loop of `commit` over the dirty pages; with `false` where a read or a write fails, and the
  -- storage as it is then.
  unfoldable pub commit_pages : BlockAllocMap → List ℕ → S → Bool × S
  commit_pages a [] s = (true, s)
  commit_pages a (p ∷ ps) s =
      let block_num = dmap_start + p in
      let skipped = commit_pages a ps s in
      if leb (storage.size_blocks s) block_num
      then skipped
      else elim (storage.read_block s block_num) [
        | none ↦ (false, s)
        | some page ↦
            let (fine, t) = storage.write_block s block_num (committed_page a p page) in
            let rest = commit_pages a ps t in if fine then rest else (false, t)
      ]

  unfoldable pub commit : BlockAllocMap → S → Bool × S × BlockAllocMap
  commit a s =
      let (fine, t) = commit_pages a a.dirty_pages s in
      let failed : Bool × S × BlockAllocMap = (false, t, a) in
      if not fine then failed else elim (storage.read_block t dmap_start) [
        | none ↦ failed
        | some desc ↦
            let (written, u) = storage.write_block t dmap_start (write_u64 desc 8 a.nfree) in
            if written
            then (true, u, record a { dirty_pages = []; allocated = []; freed = [] })
            else (false, u, a)
      ]

-- The two pages have one length, and the same bytes from the second bitmap on.
abbrev SameTail : List ℕ → List ℕ → Type 0
SameTail p q = (length p ≡ length q) × ((k : ℕ) → pmap_off ≤ k → byte p k ≡ byte q k)

write_u32-SameTail :
    (page q : List ℕ) (off w : ℕ)
    → off + 4 ≤ pmap_off
    → SameTail page q
    → SameTail (write_u32 page off w) q
unfolding write_u32
write_u32-SameTail page q off w h (l, b) = (
  length-set _ (off + 3) _
      ∙ length-set _ (off + 2) _
      ∙ length-set _ (off + 1) _
      ∙ length-set _ off _
      ∙ l,
  λ k far.
      get_or-set_ne _ (off + 3) k _ 0 (λ e. omega arith)
      ∙ get_or-set_ne _ (off + 2) k _ 0 (λ e. omega arith)
      ∙ get_or-set_ne _ (off + 1) k _ 0 (λ e. omega arith)
      ∙ get_or-set_ne _ off k _ 0 (λ e. omega arith)
      ∙ b k far,
)

write_words-SameTail :
    (count idx : ℕ) (a : BlockAllocMap) (start : ℕ) (page q : List ℕ)
    → idx + count ≤ 256
    → SameTail page q
    → SameTail (write_words count idx a start page) q
unfolding write_words
write_words-SameTail zero idx a start page q h t = t
write_words-SameTail (suc count) idx a start page q h t =
    elim (Bool-cases (leb (wmap_off + idx * 4 + 4) (length page))) [
      | inl e ↦ rw e (
          write_words-SameTail count (idx + 1) a start
            (write_u32 page (wmap_off + idx * 4) (word_of 32 0 a (start + idx * 32))) q
            (omega arith)
            (write_u32-SameTail page q (wmap_off + idx * 4) (word_of 32 0 a (start + idx * 32))
              (omega arith) t))
      | inr e ↦ rw e (write_words-SameTail count (idx + 1) a start page q (omega arith) t)
    ]

parse_words-SameTail :
    (count idx : ℕ) (p q : List ℕ) (start : ℕ) (m : List Bool)
    → SameTail p q
    → parse_words count idx p start m ≡ parse_words count idx q start m
unfolding parse_words
parse_words-SameTail zero idx p q start m t = refl
parse_words-SameTail (suc count) idx p q start m (l, b) =
    let off = pmap_off + idx * 4 in
    let word : read_u32 p off ≡ read_u32 q off =
      rw
        (
          b off (omega arith),
          b (off + 1) (omega arith),
          b (off + 2) (omega arith),
          b (off + 3) (omega arith),
        )
        refl in
    rw
      (
        l,
        word,
        parse_words-SameTail count (idx + 1) p q start
            (parse_bits 32 0 (read_u32 q off) (start + idx * 32) m) (l, b),
      )
      refl

-- What `new` reads from a page that `commit` wrote is what it reads from the page as it was
-- before, since `commit` writes the bitmap at offset 2048 and `new` reads the one at 3072.
pub parse_dmap_page-committed_page :
    (a : BlockAllocMap) (p start : ℕ) (page : List ℕ) (m : List Bool)
    → parse_dmap_page (committed_page a p page) start m ≡ parse_dmap_page page start m
unfolding parse_dmap_page
parse_dmap_page-committed_page a p start page m =
    parse_words-SameTail 256 0 (committed_page a p page) page start m (
      write_words-SameTail 256 0 a ((p - 1) * blocks_per_dmap) page page (omega arith)
        (refl, λ k h. refl))
