-- ===== src/Middleware.antt =====
-- app/middleware/: each `dispatch` takes the handler behind it, and the request with the state that
-- the middleware in front has set. The order is that of app/main.py.
pub mod RequestId
pub mod Auth
pub mod BloomFilter
pub mod RateLimit
pub mod AbuseDetector
pub mod ShadowMode
pub mod Chain
