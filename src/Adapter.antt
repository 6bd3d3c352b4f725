-- ===== src/Adapter.antt =====
-- src/adapters/claude-code: the harness's stream, its run profile and its command.
pub mod Stream
