-- ===== src/Model.antt =====
-- The rows of the database: backend/app/models. One file for each file of that package.
pub mod Events
pub mod Registry
