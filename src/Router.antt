-- ===== src/Router.antt =====
-- router.cc: the process of one onion router.
pub mod State
pub mod Packet
pub mod Wrap
pub mod Relay
pub mod Relay6
pub mod Create
pub mod Create6
pub mod Handler
pub mod Start
pub mod Contract
