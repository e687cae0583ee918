-- ===== src/Tracking.antt =====
-- internal/tracking: open pixels and click links, and the handlers that record opens and clicks.
pub mod Tokens
pub mod Signed
pub mod Escape
pub mod RoundTrip
pub mod Inject
pub mod Links
pub mod Rewrite
pub mod Handlers
pub mod Clicks
