-- ===== src/Services.antt =====
-- backend/app/services: the services over the tables, the storage and the gateway.
pub mod Row
pub mod Store
pub mod RequestRow
pub mod Filename
pub mod Upload
pub mod AssetService
pub mod Ingestion
pub mod Accounts
pub mod Products
pub mod Retrieval
pub mod Storage
pub mod LlmService
