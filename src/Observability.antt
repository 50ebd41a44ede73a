-- ===== src/Observability.antt =====
-- Guards around requests (omnicode_core/observability).
pub mod Idempotency
pub mod RateLimiter
