-- ===== src/Tests.antt =====
-- The theorems at concrete inputs, and runs of the definitions.
mod Telemetry
mod Think
mod Documents
mod Users
mod Auth
mod Agent
mod RateLimit
mod IngestionQueue
mod Keys
mod Rerank
mod VectorStore
mod CacheVersion
mod Ingestion
mod Session
mod Routes
mod Runs
mod Guardrails
