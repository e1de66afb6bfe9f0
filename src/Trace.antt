-- ===== src/Trace.antt =====
-- What the processes do to the world: datagrams, packets, and lines of the log files. A line is
-- the values that are formatted; numbers are as the program passes them on.
use torupload.Base.{ℕ, List}
use torupload.Socket.{SockAddr}

pub data LogLine : Type 0 where
  -- a router's report
  router_up : List ℕ → LogLine
  -- port
  proxy_port : ℕ → LogLine
  -- port, length, the bytes dumped
  pkt : ℕ → ℕ → List ℕ → LogLine
  -- incoming and outgoing circuit, port; of the last of them these are the arguments, and what its
  -- format in router.cc, with a conversion that is cut short, makes of them is left open
  new_extend forwarding_extend forwarding_extend_done new_secure_extend : ℕ → ℕ → ℕ → LogLine
  -- incoming and outgoing circuit, old and new source, destination
  relay_packet : ℕ → ℕ → ℕ → ℕ → ℕ → LogLine
  -- circuit, source, own address, destination
  outgoing_packet : ℕ → ℕ → ℕ → ℕ → LogLine
  -- incoming and outgoing circuit, source, old and new destination
  relay_reply : ℕ → ℕ → ℕ → ℕ → ℕ → LogLine
  -- circuit, key bytes
  fake_diffie_hellman fake_diffie_hellman_forward : ℕ → List ℕ → LogLine
  -- incoming and outgoing circuit
  relay_encrypted relay_reply_encrypted : ℕ → ℕ → LogLine
  -- source, destination, circuit
  incoming_packet : ℕ → ℕ → ℕ → LogLine
  -- source, destination, type
  icmp_from_raw : ℕ → ℕ → ℕ → LogLine
  -- hop number, router
  hop : ℕ → ℕ → LogLine
  -- circuit, port
  extend_done : ℕ → ℕ → LogLine
  -- port, source, destination, type
  icmp_from_port : ℕ → ℕ → ℕ → ℕ → LogLine
  -- source, destination, type
  icmp_from_tunnel : ℕ → ℕ → ℕ → LogLine
  -- circuit, source, destination
  incoming_relayed : ℕ → ℕ → ℕ → LogLine

pub data Event : Type 0 where
  -- `sendto` on the UDP socket, `sendmsg` on the raw one, `write` to the tunnel
  udp_sent : SockAddr → List ℕ → Event
  raw_sent : ℕ → List ℕ → Event
  tun_written : List ℕ → Event
  logged : LogLine → Event
