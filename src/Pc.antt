-- ===== src/Pc.antt =====
-- pc: the negotiation of a peer connection.
mod Settled
mod NegotiationId
pub mod Transport
mod Candidates
mod Offer
mod Answer
mod Queue
mod Outstanding
mod Renegotiation
mod Generation
mod Debounce
mod Tests
