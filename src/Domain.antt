-- ===== src/Domain.antt =====
-- domain/: the values that the parts of the collector exchange.
pub mod Types
pub mod Json
pub mod Envelope
pub mod Paths
