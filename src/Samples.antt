-- ===== src/Samples.antt =====
-- Tests of the definitions, and every theorem at a concrete input.
mod Texts
mod Buffers
mod Events
mod Channels
mod Members
mod Commands
