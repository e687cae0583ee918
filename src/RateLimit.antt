-- ===== src/RateLimit.antt =====
-- internal/ratelimit/ratelimit.go and limiter.go: the limits of a client by the hour and the month.
-- The Lua scripts and the calendar are modules below; so are the proofs.
pub mod Calendar
pub mod Month
pub mod Scripts
pub mod Keys
pub mod Limiter
pub mod Window
pub mod Decision
pub mod Laws
pub mod Expiry
pub mod Counted
pub mod History
