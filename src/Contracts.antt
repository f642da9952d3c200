-- ===== src/Contracts.antt =====
-- The public contracts of awgctl/contracts.py.
pub mod Dict
pub mod Texts
pub mod Metadata
pub mod Envelope
