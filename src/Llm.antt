-- ===== src/Llm.antt =====
-- backend/app/llm: the models, the routing and pricing, the retry policy and the gateway.
pub mod Models
pub mod Routing
pub mod Retry
pub mod Gateway
pub mod Schemas
pub mod Payload
pub mod Http
pub mod Factory
pub mod Payloads
