-- ===== src/Job.antt =====
-- The background jobs under job/.
pub mod Campaign
pub mod Upload
