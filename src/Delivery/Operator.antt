-- ===== src/Delivery/Operator.antt =====
-- The part of delivery_service.py that an operator drives: retry one dead letter or many, discard one.
pub mod Outcomes
pub mod Choice
pub mod Retry
pub mod Discard
pub mod Kept
pub mod Steps
pub mod Resolution
pub mod Answers
pub mod Bulk
