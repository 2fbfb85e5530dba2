-- ===== src/Jobs.antt =====
-- internal/jobs: the background worker.
pub mod Worker
