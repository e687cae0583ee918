-- ===== src/Repository.antt =====
-- internal/repository: the tables, and the statements on them.
pub mod Models
pub mod Logs
pub mod LogLaws
pub mod Stats
pub mod StatLaws
pub mod ClientLaws
pub mod Blacklist
pub mod BlacklistLaws
pub mod Clients
