-- ===== src/Application.antt =====
-- internal/application: errors, the interfaces of the store and the executor, and the service.
pub mod Errors
pub mod Contract
pub mod Interfaces
pub mod Monad
pub mod Executor
pub mod Helpers
pub mod Authority
pub mod Requests
pub mod Review
pub mod Execution
