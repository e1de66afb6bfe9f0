-- ===== src/Proxy.antt =====
-- proxy.cc: the process of the onion proxy.
pub mod State
pub mod Hops
pub mod Register
pub mod Build
pub mod Onion
pub mod Build6
pub mod Tunnel
pub mod Loop
pub mod Start
