-- ===== src/Audio.antt =====
-- The audio formats.
mod G711
mod Words
mod Format
pub mod Pcm
pub mod Chunk
pub mod Stream
pub mod Wav
mod Companding
mod Error
mod Tests
mod BufferTests
pub mod Rtc
