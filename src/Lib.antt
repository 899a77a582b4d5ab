-- ===== src/Lib.antt =====
-- JFSfuse, a user-space JFS file system: the structures that decide where a file's data lies, which
-- blocks are free, which names a directory has, and which requests may go on.
--
-- The parts and how they meet. An inode holds the root of an extent tree (a file) or of a directory
-- tree. The extent tree maps logical blocks of the file to physical blocks of the volume; the
-- allocation map says which physical blocks are free. A write takes blocks from the allocation map
-- and inserts them into the extent tree; a truncation or a punch takes extents out and gives their
-- blocks back. Changed pages stay in a page cache until the transaction that owns them commits: it
-- appends them to the log, writes a commit record, and only then writes the pages to their places.
-- After a crash the replay reads the log forward and applies its records backward. All blocks are in
-- a store. The FUSE layer keeps lock tables and the interrupt flags of the requests in flight beside
-- it.
--
-- * Types models `Pxd`, `Xad`, `XtHeader`, `XtRoot`, `Lrd`, `LogSuper` and `Dinode` of src/types.rs. A
--   word that the code only reads and writes as little-endian is held as its number; `into_bytes` and
--   `from_bytes` of `Pxd`, `lrd_bytes` and `parse_lrd` of `Lrd`, and `parse_dinode` of src/inode.rs
--   give the bytes. Types.Dinode.Writes has what a write into an inode's bytes does to its fields.
-- * Btree.Xtree models `Xtree` of src/btree/xtree.rs: lookup, map_blocks, the insertions, validate
--   (Order), truncate_extents, punch_extents and take_extents (Range), split_extent (Split), the
--   root's bytes (Bytes), read_data and read_data_checked (Read). The abstract view is `block_of` of
--   Btree.Xtree.Mapping: the physical block of a logical block.
-- * Volume models the transactions of `Volume` in src/volume.rs: begin, dirty marks, commit, sync,
--   abort, unmount, the start of the log and its recovery, and update_inode_page. It composes the
--   transaction manager, the page cache, the log, its replay and the block map. Volume.Xattr models
--   setxattr, getxattr and removexattr.
-- * Volume.Inode models `Inode` of src/inode.rs: find_inode_page and read.
-- * Volume.Step, Files, Write, Copy, Dirs, Unlink and Rename model the operations of `Volume` on files
--   and directories: truncate, fallocate, setattr and fsync (Files), write_at (Write),
--   copy_file_range_extent (Copy), allocate_inode, create_file, mkdir, mknod, symlink, link_file and
--   read_symlink (Dirs), rmdir, unlink_file, open_file and release_file (Unlink), rename (Rename).
--   Each is a chain of steps on a `World`: the store, the volume, the counts of open handles, and the
--   values that the next checks of the request's interrupt flag read. What a volume keeps from its
--   start on is a `Device`. A step that fails ends the operation with the state that was reached, as `?`
--   does. Volume.Operations has those that run a transaction as one type, `Op`, with a run of several.
-- * Btree.Dtree models `Dtree` of src/btree/dtree.rs on the bytes of the root: lookup, entries,
--   insert, remove.
-- * Alloc.Dmap models `BlockAllocMap` of src/alloc/dmap.rs: find_free_run, alloc_extent,
--   free_extent, rollback, and in Pages parse_dmap_page and commit.
-- * Storage.Trait is the trait `Storage` of src/storage/mod.rs as a record of operations over an
--   unknown state, with the law that the parts rely on; Storage.Memory models `MemoryStorage` and the
--   checks of a write. Storage.Cache models `CachedPage` and `PageCache`, over the container of the
--   crate `lru` in Storage.Lru, a record of operations with their documented laws. Storage.Sample has
--   a concrete store and a concrete container for the tests.
-- * Journal models src/journal: Manager the `LogManager` of logmgr.rs, and Tracker, Reader and
--   Recovery the parts of recovery.rs, from the commit tracker to `replay`.
-- * Transaction models `TransactionManager` of src/transaction.rs. The storage of the file system and
--   that of the log are two views of one state, which covers an inline log and an external one.
-- * Fuse.Locks models the POSIX and flock lock tables of `FuseFs` in src/fuse/mod.rs, and
--   Fuse.Interrupt the `InterruptManager` of src/fuse/interrupt.rs.
-- * Prelude has the shared names: tests on numbers, lists indexed by numbers, machine words, and bytes
--   put into a slice.
--
-- State is passed explicitly: an operation returns its answer and the new state. Machine integers are
-- natural numbers, with the masks and the wrap-around of the code written out; sums and products
-- wrap as they do without overflow checks, but for the end of the range of map_blocks, which no
-- caller brings near 2^64: both count blocks of a range of bytes. A `Vec<bool>`, an array or a slice is a list, a hash map
-- a function or a list of pairs without repeated keys, a hash set a list without repetition. An
-- index out of bounds is a `panic` answer where the code can reach it.
--
-- Loops are recursions on the list of entries or on the number of rounds left. The loop of
-- map_blocks advances by the piece it found: it is given as many rounds as blocks were asked for, and
-- each round takes at least one block, so that the bound is never met. `find_end` and the scan of the
-- replay advance by at least 36 bytes in a round, and are given one round more than the log has
-- bytes; an answer of their own, `unfinished`, stands for rounds that are used up.
-- The parser of the attributes takes at least four bytes in a round, and has a round for each byte.
-- The loops over the inode table have a round for each of the blocks that the code names.
--
-- Not modelled: the opening of a volume with its superblock, the checksum of a log page, the
-- remaining FUSE operations, which pass on to the volume what a third-party crate hands them, the
-- stores on files and devices, and the tools. The conversion of a name to UTF-16 is the standard
-- library's: a name is its code units. The size of an inode is an argument of the lock requests,
-- its attributes are one of theirs, and the store is an argument of every operation that uses one.
pub mod Prelude
pub mod Types
pub mod Storage
pub mod Journal
pub mod Transaction
pub mod Volume
pub mod Btree
pub mod Alloc
pub mod Fuse
