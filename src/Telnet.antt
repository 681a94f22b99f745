-- ===== src/Telnet.antt =====
-- What a user's connection receives, in src/comm.c: the telnet protocol, and the buffer of commands.
pub mod State
pub mod Stream
pub mod Suboptions
pub mod Bounds
pub mod Commands
pub mod Lines
