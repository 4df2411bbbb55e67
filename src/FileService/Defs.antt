-- ===== src/FileService/Defs.antt =====
-- The model of the file service, in four parts.
mod Model
mod Create
mod Handlers
mod Delete
mod Update
unfoldable pub use Model.*
unfoldable pub use Create.*
unfoldable pub use Handlers.*
unfoldable pub use Delete.*
unfoldable pub use Update.*
