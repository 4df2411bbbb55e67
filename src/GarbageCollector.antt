-- ===== src/GarbageCollector.antt =====
-- admin-module/app/services/garbage_collector_service.py: the deletion of expired, moved and orphaned
-- files over the queue of app/models/cleanup_queue.py. Times are seconds.
pub mod Backing
pub mod Items
pub mod Sent
pub mod Requests
pub mod Cleanup
mod Defs
unfoldable pub use Defs.*
