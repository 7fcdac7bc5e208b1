-- ===== src/Red.antt =====
-- internal/red: RFC 2198 redundant audio. The wire format, the encoder and the decoder.
pub mod Block
pub mod Wire
pub mod Sound
pub mod Packet
pub mod Encoder
pub mod Decoder
pub mod Window
pub mod Size
pub mod Recovery
mod Packetizer
mod Tests
