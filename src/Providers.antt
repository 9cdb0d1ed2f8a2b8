-- ===== src/Providers.antt =====
-- pkg/providers: how a request reaches one of several models.
pub mod Reason
pub mod Cooldown
pub mod ModelRef
pub mod Pattern
pub mod ErrorClassifier
pub mod RateLimiter
pub mod Fallback
