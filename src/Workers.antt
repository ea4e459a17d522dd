-- ===== src/Workers.antt =====
-- app/workers/bloom_sync.py, and the start of the application in app/main.py.
pub mod BloomSync
