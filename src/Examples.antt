-- ===== src/Examples.antt =====
-- Runs of the models on small inputs.
pub mod Queries
pub mod Campaigns
pub mod Entities
pub mod Handlers
pub mod Requests
pub mod Sessions
pub mod Middleware
pub mod Users
pub mod Storage
pub mod Uploads
