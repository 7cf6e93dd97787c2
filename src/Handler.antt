-- ===== src/Handler.antt =====
-- Handlers of requests, of the folder handler.
pub mod Campaign
pub mod Values
pub mod Users
pub mod Roles
pub mod Tenants
