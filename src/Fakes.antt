-- ===== src/Fakes.antt =====
-- Concrete services for the tests: they show that the laws of the interfaces can hold together.
pub mod Cache
pub mod Redis
pub mod Sql
pub mod Mail
