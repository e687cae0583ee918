-- ===== src/Examples.antt =====
-- Runs of the program on concrete inputs, and its theorems at them.
mod Events
mod Jobs
mod Limits
mod Tables
mod Pages
mod Sessions
mod Logins
mod Requests
mod Startup
mod Signed
