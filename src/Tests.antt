-- ===== src/Tests.antt =====
-- Inputs at which the definitions are run, and the theorems applied.
mod Fixture
mod Streams
mod Replies
mod Commands
mod Arguments
mod Table
mod Machine
mod Savestates
mod Listening
