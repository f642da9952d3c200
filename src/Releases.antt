-- ===== src/Releases.antt =====
-- The releases: awgctl/semver.py and awgctl/releases.py.
pub mod Semver
pub mod Manifest
pub mod Fetch
