-- ===== src/Clients.antt =====
-- The clients of awgctl/core.py: their addresses and their expiry.
pub mod Address
pub mod Status
pub mod Expiry
