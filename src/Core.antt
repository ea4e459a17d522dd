-- ===== src/Core.antt =====
-- app/core/: the Redis client, tokens and passwords, and the exceptions of the application.
pub mod RedisClient
pub mod Security
pub mod Exceptions
