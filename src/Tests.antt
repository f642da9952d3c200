-- ===== src/Tests.antt =====
-- The theorems at concrete inputs, and runs of the definitions.
mod Host
mod Service
mod Obfuscation
mod Clients
mod Transition
mod Contracts
mod Releases
mod Server
