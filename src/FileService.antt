-- ===== src/FileService.antt =====
-- storage-element/app/services/file_service.py: creation, deletion and update of a file over the
-- physical store, the attribute files, the metadata table and the write-ahead log.
pub mod Steps
pub mod Creation
pub mod Failure
pub mod Deletion
pub mod Changes
pub mod Updates
pub mod Refinement
mod Defs
unfoldable pub use Defs.*
