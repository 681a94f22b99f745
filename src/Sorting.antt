-- ===== src/Sorting.antt =====
-- The sorting of src/qsort.c.
pub mod State
pub mod Moves
pub mod Order
pub mod Sorted
