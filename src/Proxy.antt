-- ===== src/Proxy.antt =====
-- The proxy, src/proxy.
pub mod Commands
pub mod Exclusions
pub mod Target
pub mod Pipeline
