-- ===== src/Dns/Upstream.antt =====
-- src/dns/upstream.rs: the upstream servers of the resolver. What the network answers is an argument
-- of the calls; the sockets, TLS and HTTP themselves are left out.
pub mod Addr
pub mod Parking
pub mod Health
pub mod Order
pub mod Answers
pub mod Parked
pub mod Framing
pub mod Bootstrap
pub mod Reached
pub mod Probe
pub mod Connection
pub mod Resolver
