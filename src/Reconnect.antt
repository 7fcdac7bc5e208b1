-- ===== src/Reconnect.antt =====
-- How a call that lost its SFU is reconnected.
mod Config
pub mod Strategy
mod Monitor
mod Outage
mod Endurance
mod Rejoin
mod Tests
