-- ===== src/Repositories.antt =====
-- backend/app/repositories: the queries that the services make, over the tables of a `World`.
pub mod Events
pub mod Registry
pub mod Paging
pub mod Search
pub mod Statistics
pub mod Samples
