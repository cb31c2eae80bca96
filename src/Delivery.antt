-- ===== src/Delivery.antt =====
-- backend/app/services/delivery_service.py: retries and the dead letter queue. A method that may raise
-- returns a `Result`; the world that goes with an error is the one in which it was raised.
pub mod Letters
pub mod Retries
pub mod Rejected
pub mod Attempts
pub mod Rejections
pub mod Operator
pub mod Due
pub mod Samples
