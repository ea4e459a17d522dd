-- ===== src/Services.antt =====
-- app/services/: each class is a module, each method an action of `Exec`.
pub mod RateLimiter
pub mod AbuseDetector
pub mod GraduatedResponse
pub mod BloomFilter
pub mod ShadowLogger
