-- ===== src/CallOut.antt =====
-- The call_outs of src/call_out.c.
pub mod Chain
pub mod State
pub mod Api
pub mod Listing
pub mod Schedule
pub mod Timing
pub mod Valid
pub mod Agenda
pub mod Search
pub mod New
pub mod Clock
pub mod Tick
pub mod Due
pub mod Fired
pub mod Remove
pub mod ByName
pub mod Account
