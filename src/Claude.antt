-- ===== src/Claude.antt =====
-- internal/source/source_claude.go: the transcripts of Claude Code.
pub mod Copies
pub mod Content
pub mod Saved
pub mod Parts
pub mod Rows
pub mod Agents
