-- ===== src/GarbageCollector/Defs.antt =====
-- The model of the garbage collector, in four parts.
mod Model
mod Delete
mod Fill
mod Run
unfoldable pub use Model.*
unfoldable pub use Delete.*
unfoldable pub use Fill.*
unfoldable pub use Run.*
