-- ===== src/Dns.antt =====
-- The DNS server, src/dns.
pub mod Message
pub mod Cache
pub mod Rewrites
pub mod Plan
pub mod Response
pub mod Upstream
pub mod Service
pub mod Commands
pub mod Lookup
pub mod Settings
