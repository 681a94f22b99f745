-- ===== src/ObjectTable.antt =====
-- The table of objects of src/otable.c.
pub mod State
pub mod Lookup
