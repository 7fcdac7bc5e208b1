-- ===== src/Nack.antt =====
-- internal/nack: the buffer of sent packets and the answer to a receiver's NACKs.
pub mod Buffer
pub mod Index
pub mod Slots
pub mod Lookup
pub mod Resend
pub mod Rtx
mod Tests
