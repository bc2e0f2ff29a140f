-- ===== src/Tests.antt =====
-- Concrete inputs: each theorem with a hypothesis applied where its hypotheses hold.
mod Backends
mod Samples
mod Jobs
mod Runs
mod Definitions
mod Chunks
mod Stores
mod Rows
mod Llm
mod Services
mod Queue
mod Startup
