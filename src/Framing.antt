-- ===== src/Framing.antt =====
-- generic poll server/generic_poll_server.c, `preprocess_data`: the bytes of one `read` are cut into
-- commands and binary blocks.
pub mod Parts
pub mod Loop
pub mod Feed
pub mod Phases
pub mod Body
pub mod Stuck
pub mod Progress
pub mod Advance
pub mod BlockFeed
pub mod Rounds
pub mod Bytewise
pub mod Valid
pub mod Owned
pub mod Reads
pub mod Overflow
pub mod Lines
pub mod Blocks
pub mod Exchange
pub mod Plain
pub mod CoreWrite
pub mod Hang
