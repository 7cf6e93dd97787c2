-- ===== src/Job/Campaign.antt =====
-- The job that sends campaigns, job/run_campaigns/job.go.
pub mod Buckets
pub mod Batches
pub mod Task
pub mod Run
