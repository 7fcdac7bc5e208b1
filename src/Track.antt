-- ===== src/Track.antt =====
-- The package track: tracks that are published.
mod Wanted
pub mod Clock
pub mod Write
pub mod Placing
pub mod Stamping
pub mod Timeline
pub mod Pump
pub mod Local
mod PumpTests
mod Tests
