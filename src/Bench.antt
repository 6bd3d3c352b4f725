-- ===== src/Bench.antt =====
-- src/core/bench: the benchmark's runner, its profile and its isolation probe.
pub mod Corpus
pub mod Report
pub mod Certify
pub mod Tree
pub mod Verify
pub mod Strings
pub mod Profile
pub mod Plan
pub mod Probe
pub mod Columns
pub mod Run
pub mod Sweep
pub mod Command
pub mod Deny
pub mod Language
