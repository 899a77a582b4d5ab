-- ===== src/Volume/Dirs.antt =====
-- New names in src/volume.rs: allocate_inode, insert_dir_entry, remove_dir_entry, create_file, mkdir,
-- mknod, symlink, read_symlink and link_file. A name is its UTF-16 code units, which the standard
-- library makes, and the target of a symbolic link its bytes.
pub mod Symlink
use jfsfuse.Prelude.{
  ℕ, zero, suc, ◌+◌, ◌-◌, ◌*◌, min, Bool, true, false, not, ◌&&◌, ◌||◌, Option, none, some, List,
  [], ◌∷◌, ltb, leb, ◌==◌, if◌then◌else◌, length, take, as_u32, read_u32, u16_bytes, put_bytes,
  put_u32, put_u64,
}
use jfsfuse.Types.Dinode
use jfsfuse.Transaction
use jfsfuse.Btree.Dtree
use jfsfuse.Btree.Dtree.{Dtree, DirEntry}
use jfsfuse.Volume.{dinode_size}
use jfsfuse.Volume.Step
use jfsfuse.Volume.Step.{Answer, VolumeError, World, Device, M, pure, lift, continue, ◌>>=◌, ◌>>◌}
use jfsfuse.Volume.Inode
use jfsfuse.Volume.Inode.{Inode, filesystem_i, root_i, inosperpage, table_page}

-- The inner loop of `allocate_inode`, with `count` inodes left from `i` on: the number of the first
-- one without a mode, and its offset.
unfoldable pub free_in_page : ℕ → ℕ → ℕ → List ℕ → Option (ℕ × ℕ)
free_in_page zero i first d = none
free_in_page (suc count) i first d =
    let off = i * dinode_size in
    let ino = filesystem_i + as_u32 (first + i) in
    let rest = free_in_page count (i + 1) first d in
    if ltb (length d) (off + dinode_size)
    then none
    else if (read_u32 d (off + 52) == 0) && not (ino == filesystem_i + root_i)
    then some (ino, off)
    else rest

-- `name_u16.is_empty() || name_u16.len() > 11`
abbrev pub is_bad_name : List ℕ → Bool
is_bad_name name = (length name == 0) || ltb 11 (length name)

-- `dtree.entries().map(|e| e.len() as u32).unwrap_or(0)`
abbrev pub count_entries : Dtree → Answer ℕ
count_entries t = elim (Dtree.entries t) [
  | Dtree.Outcome.ok es ↦ Answer.ok (length es)
  | Dtree.Outcome.err ↦ Answer.ok 0
  | Dtree.Outcome.panic ↦ Answer.panicked
]

-- `Dtree::from_inode_data(inode.dtroot_bytes())`
abbrev pub dir_root : Inode → Answer Dtree
dir_root inode = Step.of_dtree (Dtree.from_inode_data (Dinode.root_bytes inode.dinode))

-- The root of a directory over the last bytes of its inode.
abbrev pub put_dir : Dtree → List ℕ → List ℕ
put_dir t d = put_bytes d (dinode_size - length t.data_) t.data_

abbrev pub put_nlink : ℕ → List ℕ → List ℕ
put_nlink n d = put_u32 d 40 n

-- What every new inode gets: its mode, its size, no blocks, its links, its fileset and its number.
unfoldable pub put_new : ℕ → ℕ → ℕ → ℕ → List ℕ → List ℕ
put_new mode size nlink child d =
    put_u32
      (put_u32 (put_u32 (put_u64 (put_u64 (put_u32 d 52 mode) 24 size) 32 0) 40 nlink) 4
        filesystem_i)
      8 (child - filesystem_i)

-- The directory root that `mkdir` writes at offset 224: its header, and the slots of `.` and `..`.
unfoldable pub put_dots : ℕ → ℕ → List ℕ → List ℕ
put_dots child parent d =
    let head = put_u32 (put_bytes d 240 (131 ∷ 2 ∷ 0 ∷ 0 ∷ [])) 244 parent in
    let table = put_bytes head 248 (1 ∷ 2 ∷ []) in
    let self = put_bytes (put_u32 table 256 child) 261 (1 ∷ []) in
    let dot = put_u32 (put_bytes self 262 (u16_bytes 46)) 284 0 in
    let up = put_bytes (put_u32 dot 288 parent) 293 (2 ∷ []) in
    put_u32 (put_bytes (put_bytes up 294 (u16_bytes 46)) 296 (u16_bytes 46)) 316 1

unfoldable pub put_directory : ℕ → ℕ → List ℕ → List ℕ
unfolding put_new put_dots
put_directory child parent d = put_dots child parent (put_new 16877 0 2 child d)

-- A symbolic link has its target at the start of the union.
unfoldable pub put_symlink : ℕ → List ℕ → List ℕ → List ℕ
unfolding put_new
put_symlink child path d =
    let made = put_new 41471 (length path) 1 child d in
    if leb (128 + length path) (length made) then put_bytes made 128 path else made

-- The types that `mknod` makes, and the device numbers that it keeps.
abbrev pub is_special : ℕ → Bool
is_special kind = (kind == 4096) || (kind == 8192) || (kind == 24576) || (kind == 49152)

unfoldable pub put_special : ℕ → ℕ → ℕ → List ℕ → List ℕ
unfolding put_new
put_special child mode rdev d =
    let kind = Dinode.file_type mode in
    let made = put_new mode 0 1 child d in
    if (kind == 8192) || (kind == 24576) then put_u64 made 16 rdev else made

module _ {S C : Type 0} (dev : Device S C) where
  -- What the outer loop of `allocate_inode` does with a page: `rest` is its next rounds.
  abbrev pub pick : ℕ → ℕ → Answer (ℕ × ℕ × ℕ) → Answer (List ℕ) → Answer (ℕ × ℕ × ℕ)
  pick block first rest (Answer.err e) = Answer.err e
  pick block first rest Answer.panicked = Answer.panicked
  pick block first rest (Answer.ok d) = elim (free_in_page inosperpage 0 first d) [
    | none ↦ rest
    | some (ino, off) ↦ Answer.ok (ino, block, off)
  ]

  -- The outer loop, with `rounds` blocks left, whose first inode is the one at `first` of the table.
  unfoldable pub free_in_table : ℕ → ℕ → ℕ → World S C → Answer (ℕ × ℕ × ℕ)
  unfolding free_in_page table_page
  free_in_table zero block first w = Answer.err VolumeError.no_free_inode
  free_in_table (suc rounds) block first w =
      let rest = free_in_table rounds (block + 1) (first + inosperpage) w in
      if leb dev.agg_size block then rest else pick block first rest (table_page dev block w)

  -- `record_allocation`, whose answer is dropped
  abbrev pub record_block : ℕ → M S C (Unit {0})
  record_block block w =
      let tm = (Transaction.record_allocation w.volume.tx_mgr block).1 in
      (Answer.ok tt, record w { volume = record (w.volume) { tx_mgr = tm } })

  unfoldable pub allocate_inode : M S C (ℕ × ℕ × ℕ)
  unfolding free_in_table
  allocate_inode w =
      (lift (free_in_table (dev.table_len + 32) dev.table_start 0 w) >>= λ found.
      record_block found.1 >> pure found)
        w

  unfoldable pub insert_dir_entry : ℕ → List ℕ → ℕ → ℕ → M S C Bool
  insert_dir_entry parent name child index = do
    inode ← Inode.read dev parent
    dtree ← lift (dir_root inode)
    let changed = Dtree.insert dtree name child index
    inserted ← lift (Step.of_dtree changed.0)
    if inserted
        then Step.update_inode_page dev parent inode.page_block inode.page_offset
            (put_dir changed.1)
          >> pure true
        else pure false

  unfoldable pub remove_dir_entry : ℕ → List ℕ → M S C (Option ℕ)
  remove_dir_entry parent name = do
    inode ← Inode.read dev parent
    dtree ← lift (dir_root inode)
    let changed = Dtree.remove dtree name
    removed ← lift (Step.of_dtree changed.0)
    elim removed [
      | none ↦ pure none
      | some ino ↦
          Step.update_inode_page dev parent inode.page_block inode.page_offset (put_dir changed.1)
          >> pure (some ino)
    ]

  -- The number of the directory's entries.
  unfoldable pub next_index_of : ℕ → M S C ℕ
  next_index_of parent = do
    inode ← Inode.read dev parent
    dtree ← lift (dir_root inode)
    lift (count_entries dtree)

  unfoldable pub mark_inode : ℕ → M S C (Unit {0})
  mark_inode ino = do inode ← Inode.read dev ino; Step.mark_page_dirty dev ino inode.page_block

  -- The steps that `create_file`, `mknod` and `symlink` share from the new inode on, and `mkdir` up to
  -- the entry; `last` is what is done to the parent.
  unfoldable pub add_child : ℕ → List ℕ → ℕ × ℕ × ℕ → (List ℕ → List ℕ) → M S C (Unit {0}) → M S C ℕ
  unfolding insert_dir_entry next_index_of
  add_child parent name (child, block, off) update last = do
    Step.update_inode_page dev child block off update
    Step.mark_page_dirty dev child block
    index ← next_index_of parent
    inserted ← insert_dir_entry parent name child index
    if inserted
        then last >> Step.commit_transaction dev >> pure child
        else Step.abort_with dev (Answer.err VolumeError.already_exists)

  unfoldable pub create_file : ℕ → List ℕ → M S C ℕ
  unfolding add_child mark_inode
  create_file parent name = do
    txid ← Step.begin_transaction dev
    found ← allocate_inode
    if is_bad_name name
        then Step.abort_with dev (Answer.err VolumeError.invalid_name)
        else add_child parent name found (put_new 33188 0 1 found.0) (mark_inode parent)

  -- The parent's link count, and its mark.
  unfoldable pub add_link : ℕ → M S C (Unit {0})
  add_link parent = do
    inode ← Inode.read dev parent
    Step.update_inode_page dev parent inode.page_block inode.page_offset
        (λ d. put_nlink (as_u32 (read_u32 d 40 + 1)) d)
    Step.mark_page_dirty dev parent inode.page_block

  unfoldable pub mkdir : ℕ → List ℕ → M S C ℕ
  unfolding add_child add_link
  mkdir parent name = do
    txid ← Step.begin_transaction dev
    found ← allocate_inode
    if is_bad_name name
        then Step.abort_with dev (Answer.err VolumeError.invalid_name)
        else add_child parent name found (put_directory found.0 parent) (add_link parent)

  unfoldable pub mknod : ℕ → List ℕ → ℕ → ℕ → M S C ℕ
  unfolding add_child mark_inode
  mknod parent name mode rdev = do
    txid ← Step.begin_transaction dev
    if is_bad_name name
        then Step.abort_with dev (Answer.err VolumeError.invalid_name)
        else if not (is_special (Dinode.file_type mode))
        then Step.abort_with dev (Answer.err VolumeError.invalid_file_type)
        else allocate_inode >>= λ found.
            add_child parent name found (put_special found.0 mode rdev) (mark_inode parent)

  unfoldable pub symlink : ℕ → List ℕ → List ℕ → M S C ℕ
  unfolding add_child mark_inode
  symlink parent name path = do
    txid ← Step.begin_transaction dev
    found ← allocate_inode
    if is_bad_name name
        then Step.abort_with dev (Answer.err VolumeError.invalid_name)
        else if leb 128 (length path)
        then Step.abort_with dev (Answer.err VolumeError.not_supported)
        else add_child parent name found (put_symlink found.0 path) (mark_inode parent)

  unfoldable pub link_file : ℕ → List ℕ → ℕ → M S C ℕ
  unfolding insert_dir_entry next_index_of mark_inode
  link_file parent name target =
      let linked : Inode → M S C ℕ = λ inode. do
        Step.update_inode_page dev target inode.page_block inode.page_offset
            (put_nlink (as_u32 (inode.dinode.nlink + 1)))
        Step.mark_page_dirty dev target inode.page_block
        mark_inode parent
        Step.commit_transaction dev
        pure target
      in let entered : Inode → M S C ℕ = λ inode. do
        index ← next_index_of parent
        inserted ← insert_dir_entry parent name target index
        if inserted
            then linked inode
            else Step.abort_with dev (Answer.err VolumeError.already_exists)
        in do
          txid ← Step.begin_transaction dev
          inode ← Inode.read dev target
          if Dinode.is_dir inode.dinode
              then Step.abort_with dev (Answer.err VolumeError.cannot_link_dir)
              else if is_bad_name name
              then Step.abort_with dev (Answer.err VolumeError.invalid_name)
              else entered inode

-- What `read_symlink` answers for an inode that it has read.
unfoldable pub link_target : Inode → Answer (List ℕ)
link_target inode =
    let size = inode.dinode.size in
    if not (Dinode.is_symlink inode.dinode)
    then Answer.err VolumeError.other
    else if ltb 0 size && ltb size 128
    then Answer.ok (take (min size (length inode.dinode.u)) inode.dinode.u)
    else Answer.err VolumeError.other

unfoldable pub read_symlink : {S C : Type 0} → Device S C → ℕ → M S C (List ℕ)
unfolding link_target
read_symlink dev ino = Inode.read dev ino >>= λ inode. lift (link_target inode)
