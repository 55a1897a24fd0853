-- ===== src/Cache.antt =====
-- The caches of internal/source that answer from a file's fingerprint: sqlitecache.go and
-- finalcache.go.
pub mod Snapshot
pub mod Final
pub mod Count
pub mod Records
pub mod Resume
