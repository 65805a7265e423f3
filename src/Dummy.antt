-- ===== src/Dummy.antt =====
-- dummy/Dummy Emulator: a program that includes the server and plays an emulator.
pub mod Memory
pub mod Commands
pub mod WriteBlock
pub mod Machine
pub mod Reading
pub mod CoreRead
pub mod Writing
pub mod Exchange
pub mod Sizes
pub mod Savestate
pub mod Loading
pub mod Layout
pub mod Control
pub mod Silent
pub mod Status
pub mod Program
pub mod Whole
