-- ===== src/Service.antt =====
-- The service lifecycle of awgctl/core.py.
pub mod Intent
pub mod Document
pub mod World
pub mod Load
pub mod Store
pub mod Observe
pub mod Progress
pub mod Firewall
pub mod Postcondition
pub mod Lifecycle
pub mod Command
