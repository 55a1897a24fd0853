-- ===== src/Codex.antt =====
-- internal/source/source_codex.go: the rollouts of Codex.
pub mod Output
pub mod Rows
pub mod Counts
