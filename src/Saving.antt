-- ===== src/Saving.antt =====
-- The texts of values, as src/object.c writes and reads them.
pub mod Value
pub mod Size
pub mod Save
pub mod Numeric
pub mod Scan
pub mod Restore
pub mod Texts
pub mod Plain
pub mod Scanning
pub mod Reading
pub mod RoundTrip
pub mod Fits
pub mod Depth
pub mod ZeroFree
