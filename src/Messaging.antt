-- ===== src/Messaging.antt =====
-- backend/app/messaging: messages and the names of the topology.
pub mod Broker
pub mod Topology
pub mod Fake
