-- ===== src/Repo.antt =====
-- internal/repo/postgres over the schema of migrations/001_init.up.sql.
pub mod History
pub mod Preservation
pub mod Rotation
pub mod Searches
pub mod Users
pub mod Sessions
