-- ===== src/Circuit/Ping.antt =====
-- An echo request from the proxy's tunnel to the world, over a whole circuit of stage 6.
use torupload.Router.Relay6.Exit.{packed-byte, packed-load32, packed-slice}
use torupload.Message.Laws.{length-slice}
use torupload.Base.{
  length, ℕ, ◌+◌, ◌-◌, ◌*◌, ◌/◌, ◌%◌, ◌≤◌, ◌<◌, ◌≡◌, ◌∙◌, some, List, arith, ap, le→leb, get_or,
  refl, ◌∷◌, eq→==, ap₂, Option, [], ne→==,
}
use torupload.Base.Outcome.{ok, >>=-ok, Outcome}
use torupload.Message.{Message, load32, slice, wire, place, u16}
use torupload.Aes.{IsAes}
use torupload.Machine.{Machine}
use torupload.Key.{MyKey}
use torupload.Key.RoundTrip.{packed}
use torupload.Onion.{TorHop, hop_at}
use torupload.Onion.Peel.{wrap, HasKeys, length-wrap}
use torupload.Socket.{SockAddr, address_of_router}
use torupload.Socket.Receive.{kept_all}
use torupload.Trace.{udp_sent, raw_sent, Event, icmp_from_tunnel}
use torupload.Router.State.{relay_data_fwd_enc}
use torupload.Router.Wrap.Bytes.{tor_bytes, wire-IsTor}
use torupload.Proxy.State.{Proxy, set_receiver, send_message, log_it}
use torupload.Proxy.Onion.Bytes.{blanked, data_message_lem}
use torupload.Proxy.Tunnel.{send_packet, message_read, tunnel_readable}
use torupload.Circuit.{newest, Node, travel}
use torupload.Circuit.Forward.{ping_of, IsPath, travel-wrap}

pub message_read_lem :
    (e : Machine) (packet : List ℕ)
    → length packet ≡ 84
    → message_read e (some packet) ≡ packed e packet
unfolding message_read
message_read_lem e packet size =
    ap (λ ys. record { msg = place e.indeterminate 0 ys; actual_length = u16 (length ys) })
      (kept_all 500 packet (omega arith))
    ∙ ap (λ n. record { msg = place e.indeterminate 0 packet; actual_length = n }) (omega arith)

-- The onion's packet has no source.
blanked-source :
    (m : Message) → m.actual_length ≡ 84 → load32 (λ i. get_or (wire (blanked m)) i 0) 12 ≡ 0
blanked-source m size = rw size

-- The part of a packet that goes out does not depend on its source address.
blanked-ping_of :
    (m : Message)
    → m.actual_length ≡ 84
    → ping_of (wire (blanked m)) ≡ raw_sent (load32 m.msg 16) (slice m.msg 20 64)
blanked-ping_of m size = rw size

pub proxy_sends :
    (p : Proxy) (m : Message)
    → m.actual_length ≤ 500
    → send_message p m
      ≡ ok (record p { trace = udp_sent p.sock_parent.send_to_address (wire m) ∷ p.trace })
unfolding send_message
proxy_sends p m h = rw (le→leb m.actual_length 500 h)

IsPath-pos :
    (e : Machine) (n : Node) (rest : List Node) (ks : List MyKey)
    → IsPath e (n ∷ rest) ks
    → 0 < length ks
IsPath-pos e n rest [] path = absurd path
IsPath-pos e n rest (k ∷ ks) path = omega arith

module _ (e : Machine) where
  pub tunnel_readable-echo :
      (p : Proxy) (rands : List ℕ) (got : Option (List ℕ)) (m : Message)
      {x : Outcome (Option Proxy)}
      → message_read e got ≡ m
      → m.msg 20 ≡ 8
      → 2 ≤ p.stage
      → send_packet e
          (log_it p (icmp_from_tunnel (load32 m.msg 12) (load32 m.msg 16) (m.msg 20)))
          rands
          m
        ≡ x
      → tunnel_readable e p rands got ≡ x
  unfolding tunnel_readable
  tunnel_readable-echo p rands got m is echo stage sends =
      rw is (rw (eq→== (m.msg 20) 8 echo, le→leb 2 p.stage stage) sends)

module _ (e : Machine) (laws : IsAes e.aes) where
  send_packet-stage6 :
      (p : Proxy) (rands : List ℕ) (packet : Message) (ks : List MyKey) (h : TorHop) (a : SockAddr)
      → p.stage ≡ 6
      → hop_at p.tor_cct_hops 0 ≡ ok h
      → address_of_router p.sock_parent h.router_id ≡ ok a
      → HasKeys p.tor_cct_hops ks
      → length ks ≡ p.no_of_hops
      → 0 < p.no_of_hops
      → packet.actual_length ≡ 84
      → 107 + 16 * length ks ≤ 500
      → (p' : Proxy) × (send_packet e p rands packet ≡ ok (some p'))
        × (newest p'.trace
            ≡ some (
                udp_sent a (
                  tor_bytes relay_data_fwd_enc
                    ((p.next_circuit - 1) / 256 % 256)
                    ((p.next_circuit - 1) % 256)
                    (wrap e ks (wire (blanked packet))))))
  unfolding send_packet
  send_packet-stage6 p rands packet ks h a stage first known has count pos size room =
      let (m, built, framing) =
        data_message_lem e laws p (p.next_circuit - 1) (p.no_of_hops - 1) packet ks has
          (omega arith) size room in
      let fits : m.actual_length ≤ 500 = omega (
        arith,
        framing.len,
        length-wrap e laws ks (wire (blanked packet)),
        length-slice (blanked packet).msg 0 packet.actual_length,
      ) in
      let p1 = set_receiver p a in
      (
        record p1 { trace = udp_sent a (wire m) ∷ p.trace },
        rw
            (
              ne→== p.stage 4 (omega arith),
              ne→== p.stage 3 (omega arith),
              ne→== p.stage 5 (omega arith),
              eq→== p.stage 6 stage,
            )
            (>>=-ok _ _ first
              (>>=-ok _ _ known (>>=-ok _ _ built (>>=-ok _ _ (proxy_sends p1 m fits) refl)))),
        ap (λ bytes. some (udp_sent a bytes)) (wire-IsTor framing),
      )

  -- A trip out. The proxy is in stage 6, the first hops of its circuit carry the keys `ks`, one for
  -- each of `no_of_hops`, it knows the first hop's address, the routers form a path with these keys
  -- whose first node has that port, and the layers fit (`107 + 16 * length ks <= 500`). When it
  -- reads an echo request of 84 bytes from its tunnel, it sends one datagram, and the routers carry
  -- it until the last one sends the 64 bytes behind the IP header to the packet's destination, both
  -- unchanged.
  pub ping_goes_out :
      (p : Proxy) (rands packet : List ℕ) (ks : List MyKey) (h : TorHop) (a own : SockAddr)
      (n : Node) (rest : List Node)
      → p.stage ≡ 6
      → hop_at p.tor_cct_hops 0 ≡ ok h
      → address_of_router p.sock_parent h.router_id ≡ ok a
      → HasKeys p.tor_cct_hops ks
      → length ks ≡ p.no_of_hops
      → IsPath e (n ∷ rest) ks
      → a.sin_port ≡ n.address.sin_port
      → length packet ≡ 84
      → get_or packet 20 0 ≡ 8
      → 107 + 16 * length ks ≤ 500
      → (p' : Proxy) × (event : Event) × (tunnel_readable e p rands (some packet) ≡ ok (some p'))
        × (newest p'.trace ≡ some event)
        × (travel e (n ∷ rest) own event ≡ some (ping_of packet))
  ping_goes_out p rands packet ks h a own n rest stage first known has count path port size echo
        room =
      let m = packed e packet in
      let line = icmp_from_tunnel (load32 m.msg 12) (load32 m.msg 16) (m.msg 20) in
      let (p', sends, out) =
        send_packet-stage6 (log_it p line) rands m ks h a stage first known has count
          (omega (arith, IsPath-pos e n rest ks path, count)) size room in
      let event = udp_sent a (
        tor_bytes relay_data_fwd_enc ((p.next_circuit - 1) / 256 % 256) ((p.next_circuit - 1) % 256)
          (wrap e ks (wire (blanked m)))) in
      (
        p',
        event,
        tunnel_readable-echo e p rands (some packet) m (message_read_lem e packet size)
            (packed-byte e packet 20 (omega arith) ∙ echo) (omega arith) sends,
        out,
        travel-wrap e laws (wire (blanked m))
              (length-slice (blanked m).msg 0 (length packet) ∙ size) (blanked-source m size) n rest
              ks own a ((p.next_circuit - 1) / 256 % 256) ((p.next_circuit - 1) % 256) path room
              port
            ∙ ap some (
                blanked-ping_of m size
                ∙ ap₂ raw_sent (packed-load32 e packet 16 (omega arith))
                    (packed-slice e packet 20 64 (omega arith))),
      )
