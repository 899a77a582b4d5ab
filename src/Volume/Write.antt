-- ===== src/Volume/Write.antt =====
-- `write_at_with_interrupt` of src/volume.rs; `write_at` is the same without interrupts.
use jfsfuse.Prelude.{
  ℕ, zero, suc, ◌+◌, ◌-◌, ◌*◌, ◌/◌, ◌%◌, min, Bool, true, false, Option, none, some, List, [], ◌∷◌,
  ltb, leb, ◌==◌, if◌then◌else◌, length, take, drop, replicate, as_u32, as_u64, put_bytes,
}
use jfsfuse.Types.XtRoot.{XtRoot}
use jfsfuse.Btree.Xtree
use jfsfuse.Volume.Step
use jfsfuse.Volume.Step.{Answer, VolumeError, World, Device, M, pure, lift, continue, ◌>>=◌, ◌>>◌}
use jfsfuse.Volume.Inode
use jfsfuse.Volume.Inode.{Inode}
use jfsfuse.Volume.Files
use jfsfuse.Volume.Files.{block_size, extent_root, put_extents, put_size}

-- The variables of the loops.
pub record Progress : Type 0 where
  pub written : ℕ
  pub data_pos : ℕ
  pub remaining : ℕ
  pub cur_offset : ℕ

pub record Writing : Type 0 where
  pub progress : Progress
  pub next_logical : ℕ
  pub xtree : XtRoot
  pub modified : Bool

-- The bytes that go into the next block, and the variables behind it.
abbrev pub to_copy : Progress → ℕ
to_copy p = min (block_size - p.cur_offset) p.remaining

abbrev pub chunk : List ℕ → Progress → List ℕ
chunk d p = take (to_copy p) (drop p.data_pos d)

abbrev pub advance : Progress → Progress
advance p = record {
  written = p.written + to_copy p;
  data_pos = p.data_pos + to_copy p;
  remaining = p.remaining - to_copy p;
  cur_offset = 0;
}

-- A hole without an allocator is counted as written.
abbrev pub skip_hole : ℕ → Progress → Progress
skip_hole count p =
    let zeros = min (count * block_size - p.cur_offset) p.remaining in
    record {
      written = p.written + zeros;
      data_pos = p.data_pos + zeros;
      remaining = p.remaining - zeros;
      cur_offset = 0;
    }

abbrev pub new_block : List ℕ → Progress → List ℕ
new_block d p =
    let blank = replicate block_size 0 in
    if leb (p.data_pos + to_copy p) (length d)
    then put_bytes blank p.cur_offset (chunk d p)
    else blank

module _ {S C : Type 0} (dev : Device S C) where
  -- The loop over the blocks of a new extent, with `count` left from `block` on.
  unfoldable pub write_new : ℕ → ℕ → List ℕ → Progress → M S C Progress
  write_new zero block d p w = pure p w
  write_new (suc count) block d p w =
      let rest = write_new count (block + 1) d (advance p) in
      (Step.check
          >> (if p.remaining == 0
              then pure p
              else Step.write_block dev block (new_block d p) >> rest))
        w

  -- The loop over the blocks of an extent that the file has. A block that is too short, or data that
  -- end before, make the code panic.
  unfoldable pub write_old : ℕ → ℕ → List ℕ → Progress → M S C Progress
  write_old zero block d p w = pure p w
  write_old (suc count) block d p w =
      let rest = write_old count (block + 1) d (advance p) in
      let changed : List ℕ → M S C Progress = λ old.
        if ltb (length old) (p.cur_offset + to_copy p)
        then lift Answer.panicked
        else if ltb (length d) (p.data_pos + to_copy p)
        then lift Answer.panicked
        else Step.write_block dev block (put_bytes old p.cur_offset (chunk d p)) >> rest in
      (Step.check >> (if p.remaining == 0 then pure p else Step.read_block dev block >>= changed)) w

  -- A hole that got the extent of `n` blocks at `addr`. The offset in the block stays as it was.
  abbrev pub fill_hole : List ℕ → Writing → ℕ × ℕ → M S C Writing
  fill_hole d st (addr, n) = write_new n addr d st.progress >>= λ p.
      let (grown, longer) = Xtree.insert_extent st.xtree st.next_logical n addr in
      pure (record {
        progress = record p { cur_offset = st.progress.cur_offset };
        next_logical = st.next_logical + n;
        xtree = longer;
        modified = if grown then true else st.modified;
      })

  -- The extent's blocks, from `st` on: for a hole without an allocator this is block 0.
  abbrev pub write_extent : List ℕ → Writing → ℕ → ℕ → M S C Writing
  write_extent d st addr count = write_old count addr d st.progress >>= λ p.
      pure (record st { progress = p; next_logical = st.next_logical + count })

  abbrev pub write_piece : List ℕ → Writing → ℕ → ℕ → M S C Writing
  write_piece d st addr count =
      let filled : Option (ℕ × ℕ) → M S C Writing = λ found. elim found [
        | some e ↦ fill_hole d st e
        | none ↦ write_extent d (record st { progress = skip_hole count st.progress }) addr count
      ] in
      if addr == 0
      then Files.alloc_extent dev count st.next_logical >>= filled
      else write_extent d st addr count

  unfoldable pub write_extents : List ℕ → List (ℕ × ℕ) → Writing → M S C Writing
  unfolding write_new write_old
  write_extents d [] st w = pure st w
  write_extents d ((addr, count) ∷ es) st w =
      (Step.check
          >> (if st.progress.remaining == 0
              then pure st
              else write_piece d st addr count >>= write_extents d es))
        w

  -- `if let Err(e) = self.commit_transaction() { self.abort_transaction(); return Err(e) }`
  abbrev pub or_abort : Answer (Unit {0}) × World S C → Answer (Unit {0}) × World S C
  or_abort (Answer.ok u, w) = (Answer.ok u, w)
  or_abort (Answer.panicked, w) = (Answer.panicked, w)
  or_abort (Answer.err e, w) = Step.abort_with dev (Answer.err e) w

  unfoldable pub commit_or_abort : M S C (Unit {0})
  commit_or_abort w = or_abort (Step.commit_transaction dev w)

  -- The steps behind the loop.
  unfoldable pub finish_write : ℕ → ℕ → Inode → Writing → M S C ℕ
  unfolding commit_or_abort
  finish_write ino offset inode st =
      let new_end = as_u64 (offset + st.progress.written) in
      let update : (List ℕ → List ℕ) → M S C (Unit {0}) =
        λ f. Step.update_inode_page dev ino inode.page_block inode.page_offset f in
      do
        Step.check
        Step.flush_data dev
        if ltb inode.dinode.size new_end then update (put_size new_end) else pure tt
        if st.modified then update (put_extents st.xtree) else pure tt
        Step.mark_page_dirty dev ino inode.page_block
        commit_or_abort
        pure st.progress.written

  unfoldable pub write_at : ℕ → ℕ → List ℕ → M S C ℕ
  unfolding write_extents finish_write
  write_at ino offset d =
      let byte_offset = offset % block_size in
      let fsb = offset / block_size in
      let count = as_u32 (as_u64 (length d + byte_offset + block_size - 1) / block_size) in
      let start : Progress = record {
        written = 0;
        data_pos = 0;
        remaining = length d;
        cur_offset = byte_offset;
      } in
      do
        txid ← Step.begin_transaction dev
        inode ← Inode.read dev ino
        xtree ← lift (extent_root inode)
        st ←
            write_extents d (Xtree.map_blocks xtree fsb count)
              (record { progress = start; next_logical = fsb; xtree = xtree; modified = false })
        finish_write ino offset inode st
