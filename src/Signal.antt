-- ===== src/Signal.antt =====
-- The package signal: the websocket to the SFU.
pub mod Events
pub mod Connect
pub mod Health
mod Tests
