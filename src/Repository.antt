-- ===== src/Repository.antt =====
-- internal/repository: the stores behind the interface of internal/application.
pub mod Memory
pub mod Pool
pub mod Postgres
