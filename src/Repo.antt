-- ===== src/Repo.antt =====
-- The repositories, of the folder repo.
pub mod Filter
pub mod Page
pub mod Role
