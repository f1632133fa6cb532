-- ===== src/Match.antt =====
-- Sources/match.c.
pub mod Case
pub mod Possible
pub mod Mask
pub mod Hostmask
