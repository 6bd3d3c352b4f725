-- ===== src/Tests.antt =====
-- Examples of the development at concrete inputs.
pub mod Sample
pub mod Numbers
mod Log
mod Bench
mod Sweeps
mod Trees
mod Streams
pub mod Corpora
mod Files
mod Lines
mod Certified
mod Reports
