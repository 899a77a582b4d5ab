-- ===== src/Btree.antt =====
-- The B+-tree managers of src/btree, for the part that lies in the inode.
pub mod Xtree
pub mod Dtree
