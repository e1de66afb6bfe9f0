-- ===== src/Proxy/State.antt =====
-- The globals of proxy.cc and of common.h.
use torupload.Base.{ℕ, List, ◌∷◌}
use torupload.Base.Outcome.{Outcome, ok, ◌>>=◌}
use torupload.Message.{Message}
use torupload.Onion.{TorHop}
use torupload.Socket.{SockAddr, UdpSocket, datagram}
use torupload.Trace.{Event, udp_sent, LogLine, logged}

-- `next_circuit` is the static counter `s`. The newest event comes first.
pub record Proxy : Type 0 where
  pub stage : ℕ
  pub no_of_routers : ℕ
  pub no_of_hops : ℕ
  pub sock_parent : UdpSocket
  pub next_circuit : ℕ
  pub my_cct_hops : List ℕ
  pub tor_cct_hops : List TorHop
  pub trace : List Event

abbrev pub log_it : Proxy → LogLine → Proxy
log_it p l = record p { trace = logged l ∷ p.trace }

abbrev pub set_receiver : Proxy → SockAddr → Proxy
set_receiver p a = record p { sock_parent = record p.sock_parent { send_to_address = a } }

-- `sockParent.SendMessage(message)`.
unfoldable pub send_message : Proxy → Message → Outcome Proxy
unfolding datagram
send_message p m = do
  bytes ← datagram m
  ok (record p { trace = udp_sent p.sock_parent.send_to_address bytes ∷ p.trace })
