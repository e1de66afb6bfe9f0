-- ===== src/Circuit/Plain/Journey.antt =====
-- A circuit of stage 5 is built, and a packet goes out over it.
use torupload.Circuit.Plain.Data.{travel-plain}
use torupload.Circuit.Plain.Whole.{build_plain_lem}
use torupload.Circuit.Extend.Plan.{happen, nodes_at}
use torupload.Circuit.Plain.Round.{sent_events}
use torupload.Proxy.Build.{build_an_circuit}
use torupload.Router.Relay6.Exit.{packed-byte}
use torupload.Circuit.Ping.{tunnel_readable-echo, message_read_lem, proxy_sends}
use torupload.Proxy.Hops.{randomly_select_hops2}
use torupload.Circuit.Plain.Build.{
  Next, AreNext, addresses_next, requests, IsAnswer, address_of_router-senders,
}
use torupload.Trace.{icmp_from_tunnel, Event}
use torupload.Trace.{udp_sent}
use torupload.Circuit.{newest, travel}
use torupload.Socket.{SockAddr, address_of_router, Received}
use torupload.Proxy.State.{Proxy, log_it, set_receiver}
use torupload.Circuit.Forward.{ping_of}
use torupload.Key.RoundTrip.{packed, wire-packed}
use torupload.Message.Laws.{slice_ext, length-slice, slice-place, memcpy_lem}
use torupload.Router.Wrap.{frame}
use torupload.Router.State.{relay_this_data_fwd, Router, last_hop_port_number}
use torupload.Proxy.Tunnel.{send_packet, first_router, wrap_packet, tunnel_readable}
use torupload.Router.Wrap.Bytes.{IsTor, tor_bytes, wire-IsTor}
use torupload.Message.{Message, Buffer, place, slice, wire, u16, load32, htons}
use torupload.Machine.{Machine}
use torupload.Base.{
  ℕ, ◌+◌, ◌-◌, ◌/◌, ◌%◌, ◌≡◌, refl, sym, ap, ◌∙◌, length, get_or, some, List, ◌∷◌, arith, eq→==,
  ne→==, All, ◌<◌, Option, [], ◌++◌, map, ◌≤◌,
}
use torupload.Base.Outcome.{ok, >>=-ok, Outcome, ◌>>=◌}

module _ (e : Machine) where
  -- The packet in its frame, as `wrap_packet` makes it.
  abbrev wrapped : List ℕ → ℕ → Message
  wrapped packet id = record {
    msg =
        frame (place (packed e packet).msg 23 (slice (packed e packet).msg 0 (length packet)))
          relay_this_data_fwd id;
    actual_length = u16 (length packet + 23);
  }

  wrapped-IsTor :
      (packet : List ℕ) (id : ℕ)
      → length packet ≡ 84
      → IsTor (wrapped packet id) relay_this_data_fwd (id % 256) (id / 256 % 256) packet
  wrapped-IsTor packet id size = record {
    head = refl;
    command_byte = refl;
    low_byte = refl;
    high_byte = refl;
    body =
        slice_ext (wrapped packet id).msg (place (packed e packet).msg 23 (wire (packed e packet)))
          23 23 (length packet)
          (λ i lt. behind (place (packed e packet).msg 23 (wire (packed e packet))) i)
        ∙ ap (slice (place (packed e packet).msg 23 (wire (packed e packet))) 23)
            (sym (length-slice (packed e packet).msg 0 (length packet)))
        ∙ slice-place (packed e packet).msg 23 (wire (packed e packet))
        ∙ wire-packed e packet;
    len = omega (arith, size);
  }
    where
      behind : (f : Buffer) (i : ℕ) → frame f relay_this_data_fwd id (23 + i) ≡ f (23 + i)
      behind f i = ground arith

  send_packet-stage5 :
      (p : Proxy) (rands : List ℕ) (m sent : Message) (r : ℕ) (more : List ℕ) (a : SockAddr)
      → p.stage ≡ 5
      → p.my_cct_hops ≡ r ∷ more
      → address_of_router p.sock_parent r ≡ ok a
      → wrap_packet e p m ≡ ok sent
      → sent.actual_length ≤ 500
      → send_packet e p rands m
        ≡ ok (some (record (set_receiver p a) { trace = udp_sent a (wire sent) ∷ p.trace }))
  unfolding send_packet first_router
  send_packet-stage5 p rands m sent r more a stage hops known made room =
      rw (ne→== p.stage 4 (omega arith), ne→== p.stage 3 (omega arith), eq→== p.stage 5 stage)
        (>>=-ok _ _ (ap first_router hops) (
          >>=-ok _ _ known
            (>>=-ok _ _ made (>>=-ok _ _ (proxy_sends (set_receiver p a) sent room) refl))))

  wrap_packet_lem :
      (p : Proxy) (packet : List ℕ)
      → length packet ≡ 84
      → wrap_packet e p (packed e packet) ≡ ok (wrapped packet (p.next_circuit - 1))
  unfolding wrap_packet
  wrap_packet_lem p packet size =
      ap
        (λ o. o >>= λ f. ok (record {
          msg = frame f relay_this_data_fwd (p.next_circuit - 1);
          actual_length = u16 (length packet + 23);
        }))
        (memcpy_lem (packed e packet).msg 23 (packed e packet).msg 0 (length packet) (omega arith)
          (omega arith))

  -- What the proxy sends when it reads an echo request.
  sends_plain :
      (p : Proxy) (rands packet : List ℕ) (r : ℕ) (more : List ℕ) (a : SockAddr)
      → p.stage ≡ 5
      → p.my_cct_hops ≡ r ∷ more
      → address_of_router p.sock_parent r ≡ ok a
      → length packet ≡ 84
      → get_or packet 20 0 ≡ 8
      → (p' : Proxy) × (tunnel_readable e p rands (some packet) ≡ ok (some p'))
        × (newest p'.trace
            ≡ some (
                udp_sent a (
                  tor_bytes relay_this_data_fwd
                    ((p.next_circuit - 1) % 256)
                    ((p.next_circuit - 1) / 256 % 256)
                    packet)))
  sends_plain p rands packet r more a stage hops known size echo =
      let m = packed e packet in
      let p1 = log_it p (icmp_from_tunnel (load32 m.msg 12) (load32 m.msg 16) (m.msg 20)) in
      let sent = wrapped packet (p.next_circuit - 1) in
      (
        record (set_receiver p1 a) { trace = udp_sent a (wire sent) ∷ p1.trace },
        tunnel_readable-echo e p rands (some packet) m (message_read_lem e packet size)
            (packed-byte e packet 20 (omega arith) ∙ echo) (omega arith)
            (send_packet-stage5 p1 rands m sent r more a stage hops known
              (wrap_packet_lem p1 packet size) (omega (arith, size))),
        ap (λ bytes. some (udp_sent a bytes))
            (wire-IsTor (wrapped-IsTor packet (p.next_circuit - 1) size)),
      )

  AreNext-low :
      (f : ℕ → Outcome SockAddr) (hs : List Next)
      → AreNext f hs
      → All (λ a. a.sin_port < 0xffff) (addresses_next hs)
  AreNext-low f [] plan = tt
  AreNext-low f (h ∷ hs) (inside, known, low, new, plan) = (low, AreNext-low f hs plan)

  -- The proxy is in stage 5, and the circuit's identifier has 16 bits. It knows the addresses of
  -- the routers that it selects, whose ports are below 0xffff; no request has reached these
  -- routers, which are in stage 5. Then `Build_An_Circuit` ends without a fault, whatever is
  -- received in its rounds, a failed receive included: no answer is checked. The requests that it
  -- sends, handed to the routers in that order, are each answered to the proxy with a
  -- CIRCUIT_EXTEND_DONE. When the proxy then reads an echo request of 84 bytes from its tunnel, it
  -- sends one datagram, and the routers, as the requests left them, carry it until the last one
  -- sends the 64 bytes behind the IP header to the packet's destination, both unchanged.
  pub packet_over_plain_circuit :
      (p : Proxy) (rand : ℕ) (got : ℕ → Received) (own : SockAddr) (h : Next) (rest : List Next)
      (rands packet : List ℕ)
      → randomly_select_hops2 rand p.no_of_routers p.no_of_hops ≡ map (λ a. a.number) (h ∷ rest)
      → AreNext (address_of_router p.sock_parent) (h ∷ rest)
      → p.stage ≡ 5
      → p.next_circuit < 65536
      → length packet ≡ 84
      → get_or packet 20 0 ≡ 8
      → (p1 p2 : Proxy) × (evs : List Event) × (rs : List Router) × (backs : List (Option Event))
        × (event : Event) × (build_an_circuit e rand got p ≡ ok p1)
        × (sent_events p1.trace ≡ happen evs (sent_events p.trace))
        × (requests e own (h.address ∷ []) (h.router ∷ []) rest evs ≡ some (rs, backs))
        × All (IsAnswer own) backs
        × (tunnel_readable e p1 rands (some packet) ≡ ok (some p2))
        × (newest p2.trace ≡ some event)
        × (travel e (nodes_at (addresses_next (h ∷ rest)) rs) own event ≡ some (ping_of packet))
  packet_over_plain_circuit p rand got own h rest rands packet sel plan stage small size echo =
      let (p1, evs, rs, backs, runs, sent, talk, answers, built) =
        build_plain_lem e p rand got own h rest sel plan small in
      let id = p1.next_circuit - 1 in
      let (p2, reads, out) =
        sends_plain p1 rands packet h.number (map (λ a. a.number) rest ++ last_hop_port_number ∷ [])
          h.address (built.stage ∙ stage) built.hops
          (address_of_router-senders p.sock_parent p1.sock_parent h.number built.senders ∙ plan.1)
          size echo in
      (
        p1,
        p2,
        evs,
        rs,
        backs,
        udp_sent h.address (tor_bytes relay_this_data_fwd (id % 256) (id / 256 % 256) packet),
        runs,
        sent,
        talk,
        answers,
        reads,
        out,
        travel-plain e (addresses_next (h ∷ rest)) rs own h.address (htons p.next_circuit)
            (id % 256) (id / 256 % 256) packet built.chain
            (AreNext-low (address_of_router p.sock_parent) (h ∷ rest) plan) size refl,
      )
