-- ===== src/Sockets.antt =====
-- The sockets of src/socket_efuns.c.
pub mod State
pub mod Open
pub mod Transfer
pub mod Handlers
pub mod Fresh
pub mod Closing
pub mod Pending
pub mod Messages
pub mod HandOver
