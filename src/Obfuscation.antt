-- ===== src/Obfuscation.antt =====
-- The obfuscation profiles of awgctl/core.py.
pub mod Range
pub mod Headers
pub mod Classic
pub mod Cps
pub mod Awg31
pub mod Profile
