-- ===== src/Limiter.antt =====
-- crates/fusecraft-core/src/limiter: the concurrency limiter and the token bucket.
pub mod Concurrency
pub mod Bandwidth
