-- ===== src/Ratelimit.antt =====
-- internal/ratelimit: the token bucket and the limiter with a bucket per key.
pub mod Bucket
pub mod Keyed
