-- ===== src/Finalize.antt =====
-- ingester-module/app/services/finalize_service.py: the move of a temporary file to a storage element
-- for permanent files. The other services are the parameter `Network`.
pub mod Model
pub mod Phases
pub mod Retries
pub mod Outcomes
