-- ===== src/Fuse.antt =====
-- The FUSE layer, src/fuse: what it keeps beside the volume.
pub mod Locks
pub mod Interrupt
