-- ===== src/Output.antt =====
-- The output to users, in src/comm.c.
pub mod State
pub mod Ring
pub mod Flush
pub mod Stops
pub mod Order
