-- ===== src/ShitList.antt =====
-- Sources/shitlist.c: the bans that the bot keeps for each channel, without their file.
pub mod Table
pub mod Commands
pub mod Entries
