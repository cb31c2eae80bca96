-- ===== src/Hub.antt =====
-- backend/app/services/event_hub_service.py: what the Core does with one event. Each method takes the
-- environment and the world, and returns its result with the world after it; none of them raises, but
-- for `reprocess`, where pydantic or jsonschema may, and `ingest_or_raise`, where jsonschema may.
pub mod Outcome
pub mod Routing
pub mod Intake
pub mod Reprocess
pub mod LogRows
pub mod Evidence
pub mod Routes
pub mod Messages
pub mod Numbered
pub mod Settled
pub mod Added
pub mod Runs
pub mod Rejection
pub mod Samples
