-- ===== src/StringTable.antt =====
-- The shared strings of src/stralloc.c.
pub mod State
pub mod Sharing
pub mod Freeing
pub mod Sizes
