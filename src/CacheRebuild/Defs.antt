-- ===== src/CacheRebuild/Defs.antt =====
-- The definitions of the cache's rebuild.
pub mod Model
pub mod Scan
pub mod Run
