-- ===== src/Types.antt =====
-- On-disk descriptors of src/types.rs: the physical extent (`Pxd`), the extent entry (`Xad`) and
-- tree root (`XtRoot`), the log record (`Lrd`), and the inode (`Dinode`).
pub mod Pxd
pub mod Xad
pub mod XtRoot
pub mod Lrd
pub mod LogSuper
pub mod Dinode
