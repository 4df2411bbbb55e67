-- ===== src/CacheRebuild.antt =====
-- storage-element/app/services/cache_rebuild_service.py: the table of the files' metadata as a cache of the
-- attribute files, rebuilt from them and compared with them.
pub mod Defs
pub mod Commits
pub mod Rows
pub mod Scans
pub mod Outcomes
pub mod Reports
pub mod Inserts
pub mod Returns
