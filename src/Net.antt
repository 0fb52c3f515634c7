-- ===== src/Net.antt =====
-- The namespace nstl::net.
pub mod Address
pub mod Inet
pub mod Parse
pub mod Print
pub mod Order
pub mod Svcb
pub mod Records
pub mod Lookup
pub mod Client
