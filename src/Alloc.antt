-- ===== src/Alloc.antt =====
-- The allocation maps of src/alloc.
pub mod Dmap
