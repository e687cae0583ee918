-- ===== src/Database.antt =====
-- internal/repository/db.go and pkg/database/migrate.go: the connection to MySQL at the start, and the
-- migrations.
pub mod Start
pub mod Pings
pub mod Migrate
