-- ===== src/Registry.antt =====
-- backend/app/services/registry_service.py: modules, event types, subscriptions and publications. A
-- caller is the name of its module, or nothing for the Core itself, and whether it is an administrator.
pub mod Authority
pub mod Modules
pub mod EventTypes
pub mod Subscriptions
pub mod Publications
pub mod Guards
pub mod Uniqueness
mod Samples
