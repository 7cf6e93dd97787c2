-- ===== src/Entity.antt =====
-- The entities of entity/*.go: what a row of the database holds and the rules on its fields.
pub mod Task
pub mod Role
pub mod Activation
pub mod Ud
pub mod Tag
pub mod Campaign
pub mod Tenant
pub mod User
