-- ===== src/Tests.antt =====
-- The theorems at concrete inputs, and runs of the definitions.
mod Rounds
mod Claude
mod Codex
mod Samples
mod Args
mod Reading
mod Sessions
mod Searching
mod Caches
mod Texts
mod Lines
mod Resolver
mod Http
mod Projects
mod Timed
mod Title
