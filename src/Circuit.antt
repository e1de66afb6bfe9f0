-- ===== src/Circuit.antt =====
-- Several routers joined by the network: what one of them sends is delivered to the next one on
-- the path, if it was sent to that one's port.
pub mod Forward
pub mod Backward
pub mod Reply
pub mod Ping
pub mod Handshake
pub mod Home
pub mod Startup
pub mod Extend
pub mod Plain
use torupload.Base.{◌==◌, if◌then◌else◌, Option, none, some, List, [], ◌∷◌}
use torupload.Base.Outcome.{Outcome, ok, fault}
use torupload.Machine.{Machine}
use torupload.Socket.{SockAddr, arrived}
use torupload.Trace.{Event, udp_sent, raw_sent, tun_written, logged}
use torupload.Router.State.{Router}
use torupload.Router.Handler.{handle, from_udp}

pub record Node : Type 0 where
  pub address : SockAddr
  pub router : Router

-- The last thing that went out.
abbrev pub newest : List Event → Option Event
newest [] = none
newest (logged l ∷ events) = newest events
newest (udp_sent a bytes ∷ events) = some (udp_sent a bytes)
newest (raw_sent a bytes ∷ events) = some (raw_sent a bytes)
newest (tun_written bytes ∷ events) = some (tun_written bytes)

abbrev pub newest_of : Outcome Router → Option Event
newest_of (ok r) = newest r.trace
newest_of (fault f) = none

-- `event` is what the process at `from` did last. Along the nodes each router handles what the one
-- before it sent; the result is what the last one sent. `none`: a router stopped, or a datagram
-- went elsewhere.
unfoldable pub travel : Machine → List Node → SockAddr → Event → Option Event
travel e [] from event = some event
travel e (n ∷ nodes) from (udp_sent to bytes) =
    if to.sin_port == n.address.sin_port
    then (elim (newest_of (handle e n.router (from_udp (arrived from bytes)))) [
      | none ↦ none
      | some next ↦ travel e nodes n.address next
    ])
    else none
travel e (n ∷ nodes) from (raw_sent to bytes) = none
travel e (n ∷ nodes) from (tun_written bytes) = none
travel e (n ∷ nodes) from (logged l) = none
