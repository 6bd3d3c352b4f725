-- ===== src/Log.antt =====
-- src/core/log: the event log, the only durable truth, and the fold that turns it into state.
pub mod Event
pub mod Check
pub mod Json
pub mod Scan
pub mod Writer
pub mod Open
pub mod Data
pub mod Fold
