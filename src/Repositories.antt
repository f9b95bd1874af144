-- ===== src/Repositories.antt =====
-- app/repositories: the versioned entity store.
pub mod Memory
