-- ===== src/Delivery.antt =====
-- internal/delivery: sending one message through SES, and what its errors mean.
pub mod Errors
pub mod Ses
pub mod Mime
pub mod Send
pub mod SendLaws
