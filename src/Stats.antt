-- ===== src/Stats.antt =====
-- rtcstats: what is reported to the SFU.
pub mod Delta
pub mod Trace
mod Tests
