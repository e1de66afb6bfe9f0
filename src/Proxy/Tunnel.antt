-- ===== src/Proxy/Tunnel.antt =====
-- `tunnelPlusSock_reader` of proxy.cc: packets from the tunnel device to the first router, and
-- packets from the routers to the tunnel device.
use torupload.Base.{
  leb, ◌==◌, if◌then◌else◌, length, take, ℕ, ◌+◌, ◌-◌, ◌||◌, Option, none, some, List, [], ◌∷◌,
}
use torupload.Base.Outcome.{Outcome, ok, fault, assertion, out_of_bounds, guard, ◌>>=◌, ◌>>◌}
use torupload.Message.{
  Message, load16, load32, store32, htons, memcpy, u16, slice, wire, place, max_message_length,
}
use torupload.Machine.{Machine}
use torupload.Onion.{hop_at, onion_decrypt}
use torupload.Socket.{
  Received, receive_message, address_of_router, set_random_receiver, to_u16, pos, negsuc,
}
use torupload.Trace.{tun_written, pkt, icmp_from_port, icmp_from_tunnel, incoming_relayed}
use torupload.Router.State.{relay_this_data_fwd, relay_data_bwd_enc}
use torupload.Router.Packet.{put_header_checksum}
use torupload.Router.Wrap.{frame, payload, hex_dump}
use torupload.Proxy.State.{Proxy, log_it, set_receiver, send_message}
use torupload.Proxy.Onion.{data_message}

-- `write(tun_fd, …)`.
abbrev pub write_tun : Proxy → List ℕ → Proxy
write_tun p bytes = record p { trace = tun_written bytes ∷ p.trace }

-- A packet from a router in stages 1 to 4.
unfoldable pub plain_from_router : Proxy → Message → Outcome Proxy
plain_from_router p m = do
  guard (m.msg 20 == 0) assertion
  guard (leb m.actual_length max_message_length) out_of_bounds
  let line =
      icmp_from_port (htons p.sock_parent.last_sender.sin_port) (load32 m.msg 12) (load32 m.msg 16)
        (m.msg 20)
  ok (write_tun (log_it p line) (wire m))

-- In stage 5. The log line reads its addresses 23 headers behind the start, at 460.
unfoldable pub relayed_from_router : Proxy → Message → Outcome Proxy
unfolding hex_dump
relayed_from_router p m = do
  bytes ← hex_dump m
  let p1 = log_it p (pkt (htons p.sock_parent.last_sender.sin_port) (m.actual_length - 20) bytes)
  let p2 = log_it p1 (incoming_relayed (load16 m.msg 21) (load32 m.msg 472) (load32 m.msg 476))
  guard (leb 23 m.actual_length) out_of_bounds
  ok (write_tun p2 (slice m.msg 23 (m.actual_length - 23)))

-- `myCctHops[0]`.
unfoldable pub first_router : List ℕ → Outcome ℕ
first_router [] = fault out_of_bounds
first_router (r ∷ hops) = ok r

-- The message after `read`, at most `max_message_length` bytes.
unfoldable pub message_read : Machine → Option (List ℕ) → Message
message_read e none = record { msg = e.indeterminate; actual_length = to_u16 (negsuc 0) }
message_read e (some xs) =
    let ys = take max_message_length xs in
    record { msg = place e.indeterminate 0 ys; actual_length = to_u16 (pos (length ys)) }

module _ (e : Machine) where
  -- In stage 6: the layers come off, and the packet is addressed to this host.
  unfoldable pub onion_from_router : Proxy → Message → Outcome Proxy
  unfolding payload
  onion_from_router p m = do
    guard (m.msg 20 == relay_data_bwd_enc) assertion
    encrypted ← payload e m
    packet ← onion_decrypt e p.tor_cct_hops p.no_of_hops encrypted
    guard (packet.actual_length == 84) assertion
    let f = put_header_checksum (store32 packet.msg 16 (e.nic 0)) 0
    ok (write_tun p (slice f 0 84))

  -- The UDP socket is readable; the message is a new one each time.
  unfoldable pub router_readable : Proxy → Received → Outcome Proxy
  router_readable p got = do
    (sock, m) ←
        receive_message p.sock_parent (record { msg = e.indeterminate; actual_length = 0 }) got
    let p1 = record p { sock_parent = sock }
    if leb p.stage 4
        then plain_from_router p1 m
        else if p.stage == 5
        then relayed_from_router p1 m
        else onion_from_router p1 m

  -- The packet in a Mini-Tor frame, under the last circuit's identifier in host order.
  unfoldable pub wrap_packet : Proxy → Message → Outcome Message
  unfolding memcpy
  wrap_packet p m = do
    f ← memcpy m.msg 23 m.msg 0 m.actual_length
    ok (record {
      msg = frame f relay_this_data_fwd (p.next_circuit - 1);
      actual_length = u16 (m.actual_length + 23);
    })

  -- What the proxy does with an echo request that it has read and logged; `rands` are the values
  -- of `rand()`. `none`: `rand()` has not yet hit a router.
  unfoldable pub send_packet : Proxy → List ℕ → Message → Outcome (Option Proxy)
  unfolding send_message hop_at
  send_packet p rands m =
      if p.stage == 4 || p.stage == 3
      then (set_random_receiver p.sock_parent rands >>= λ s. elim s [
        | none ↦ ok none
        | some sock ↦ send_message (record p { sock_parent = sock }) m >>= λ p1. ok (some p1)
      ])
      else if p.stage == 5
      then (first_router p.my_cct_hops >>= λ r. address_of_router p.sock_parent r >>= λ a.
          wrap_packet p m >>= λ m1. send_message (set_receiver p a) m1 >>= λ p1. ok (some p1))
      else if p.stage == 6
      then (hop_at p.tor_cct_hops 0 >>= λ h. address_of_router p.sock_parent h.router_id >>= λ a.
          data_message e p (p.next_circuit - 1) (p.no_of_hops - 1) m >>= λ m1.
          send_message (set_receiver p a) m1 >>= λ p1. ok (some p1))
      else ok (some p)

  -- The tunnel is readable: `got` are the bytes, and `none` a failed read, whose -1 becomes a
  -- length of 65535. The test for a negative length is never met.
  unfoldable pub tunnel_readable : Proxy → List ℕ → Option (List ℕ) → Outcome (Option Proxy)
  tunnel_readable p rands got = do
    let m = message_read e got
    guard (m.msg 20 == 8) assertion
    let line = icmp_from_tunnel (load32 m.msg 12) (load32 m.msg 16) (m.msg 20)
    send_packet (if leb 2 p.stage then log_it p line else p) rands m
