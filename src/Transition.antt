-- ===== src/Transition.antt =====
-- The obfuscation transition of awgctl/core.py: a change of the profile and the port that is
-- prepared, activated, and then confirmed or rolled back.
pub mod Document
pub mod Outcome
pub mod Load
pub mod Store
pub mod Cleanup
