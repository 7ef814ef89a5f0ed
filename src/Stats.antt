-- ===== src/Stats.antt =====
-- Counting what the program does, src/stats.
pub mod Commands
pub mod Logs
pub mod History
pub mod Exclude
