-- ===== src/HeartBeat.antt =====
-- The heart beats of src/backend.c.
pub mod State
pub mod Positions
pub mod Spec
pub mod Refine
pub mod Changes
pub mod Lengths
pub mod Rounds
