-- ===== src/Bans.antt =====
-- Sources/bans.c: the masks and the commands for the bans of a channel.
pub mod Masks
pub mod Commands
pub mod Fuel
pub mod Hits
