-- ===== src/Tests.antt =====
-- Runs of the modelled code at small inputs, and the theorems at inputs that meet their conditions.
pub mod CallOuts
pub mod Tables
pub mod Sockets
pub mod Saving
pub mod HeartBeats
pub mod Telnet
pub mod Messages
pub mod Output
pub mod Mappings
pub mod Sorting
