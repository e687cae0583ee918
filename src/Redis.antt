-- ===== src/Redis.antt =====
-- Redis as the program uses it (github.com/redis/go-redis/v9 and the server behind it): abstract
-- stores, with what each command is documented to do to what the other commands can read.
pub mod Cache
pub mod Counters
pub mod Lists
