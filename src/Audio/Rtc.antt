-- ===== src/Audio/Rtc.antt =====
-- The package audio/rtc: audio from and to tracks.
pub mod Reader
pub mod Writer
mod Tests
