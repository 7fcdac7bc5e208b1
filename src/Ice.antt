-- ===== src/Ice.antt =====
-- Repairing a peer connection by restarting ICE.
mod Recovery
mod Budget
mod Tests
