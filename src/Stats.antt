-- ===== src/Stats.antt =====
-- backend/app/services/stats_service.py: the alerts on how the modules fit together.
pub mod Distance
pub mod Words
pub mod Alerts
pub mod Dashboard
pub mod Samples
