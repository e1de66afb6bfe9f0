-- ===== src/Circuit/Extend/Journey.antt =====
-- A circuit of stage 6 is built, a packet goes out over it, and the reply comes back.
use torupload.Circuit.Home.{IsDelivered}
use mathlib.Core.List.{reverse}
use torupload.Message.{Buffer, slice}
use torupload.Proxy.Loop.Course.{course, tunnel_readable-keeps}
use torupload.Circuit.Extend.Session.{IsStanding}
use torupload.Checksum.Verify.{IsBytes}
use torupload.Circuit.Extend.Echo.{
  packet_goes_out, IsBuilt-IsStanding, travel_home, packet_comes_home,
}
use torupload.Proxy.Hops.Laws.{length-randomly_select_hops2}
use torupload.Circuit.Forward.{ping_of}
use torupload.Circuit.{newest, travel}
use torupload.Circuit.Extend.Establish.{done_bytes}
use torupload.Base.Outcome.{ok}
use torupload.Proxy.Build6.{build_an_circuit_6}
use torupload.Proxy.Tunnel.{tunnel_readable, router_readable}
use torupload.Trace.{Event, udp_sent, tun_written}
use torupload.Proxy.Hops.{randomly_select_hops2, log_hops}
use torupload.Router.State.{Router}
use torupload.Aes.{IsAes}
use torupload.Socket.{address_of_router, SockAddr, arrived}
use torupload.Machine.{Machine}
use torupload.Base.{
  length, get_or, replicate, ℕ, suc, ◌+◌, ◌*◌, ◌≤◌, ◌<◌, ◌≡◌, sym, ◌∙◌, some, List, [], ◌∷◌, arith,
  length-map, ◌^◌, subst,
}
use torupload.Circuit.Extend.Table.{AreSelected-length, AreSelected}
use torupload.Circuit.Extend.Plan.{Ahead, network, nodes_at, keys_ahead, addresses_ahead, happen}
use torupload.Circuit.Extend.Whole.{build_an_circuit_6-IsBuilt}
use torupload.Proxy.State.{Proxy}

module _ (e : Machine) (laws : IsAes e.aes) where
  stands :
      (p : Proxy) (rand : ℕ) (random : ℕ → List ℕ) (own : SockAddr) (h : Ahead) (rest : List Ahead)
      → AreSelected e
          (address_of_router p.sock_parent)
          random
          0
          (randomly_select_hops2 rand p.no_of_routers p.no_of_hops)
          (h ∷ rest)
      → p.stage ≡ 6
      → p.next_circuit < 65536
      → 57 + 16 * length rest ≤ 500
      → (p1 : Proxy) × (evs : List Event) × (rs : List Router) × (build_an_circuit_6 e rand random
            (λ n. arrived h.address (done_bytes p.next_circuit))
            p
          ≡ ok p1)
        × (p1.trace
            ≡ happen evs
                (log_hops p 0 (randomly_select_hops2 rand p.no_of_routers p.no_of_hops)).trace)
        × (network e own (h.address ∷ []) (h.router ∷ []) rest evs
            ≡ some (
              rs,
              replicate (suc (length rest)) (some (udp_sent own (done_bytes p.next_circuit))),
            ))
        × IsStanding e own (course p1) (addresses_ahead (h ∷ rest)) rs (keys_ahead (h ∷ rest))
  stands p rand random own h rest sel stage small room =
      let selected = randomly_select_hops2 rand p.no_of_routers p.no_of_hops in
      let (p1, evs, rs, runs, sent, talk, built) =
        build_an_circuit_6-IsBuilt e laws p rand random own h rest sel small room in
      (
        p1,
        evs,
        rs,
        runs,
        sent,
        talk,
        IsBuilt-IsStanding e laws p p1 random selected own h rest rs sel built stage (
            sym (length-randomly_select_hops2 rand p.no_of_routers p.no_of_hops)
            ∙ sym (
                AreSelected-length e (address_of_router p.sock_parent) random 0 selected (h ∷ rest)
                  sel)),
      )

  -- From nothing to a packet that is out in the world. The proxy is in stage 6. It knows the
  -- addresses of the routers that it selects, whose identifiers are between 1 and 254 and whose
  -- ports are below 0xffff; their keys are made of random texts of 16 bytes; no key and no
  -- extension request has reached these routers; the circuit's identifier has 16 bits; the layers
  -- fit (`123 + 16 * length rest <= 500`, `rest` being the hops behind the first). Then
  -- `Build_An_Circuit_6` ends without a fault if each of its rounds is answered with an
  -- ENC_CIRCUIT_EXTEND_DONE under the circuit's identifier. The messages that it sends in doing so,
  -- handed to the routers in that order, make them send the proxy just these answers, one in each
  -- round. When the proxy then reads an echo request of 84 bytes from its tunnel, it sends one
  -- datagram, and the routers, as these messages left them, carry it until the last one sends the
  -- 64 bytes behind the IP header to the packet's destination.
  pub ping_over_new_circuit :
      (p : Proxy) (rand : ℕ) (random : ℕ → List ℕ) (own : SockAddr) (h : Ahead) (rest : List Ahead)
      (rands packet : List ℕ)
      → AreSelected e
          (address_of_router p.sock_parent)
          random
          0
          (randomly_select_hops2 rand p.no_of_routers p.no_of_hops)
          (h ∷ rest)
      → p.stage ≡ 6
      → p.next_circuit < 65536
      → length packet ≡ 84
      → get_or packet 20 0 ≡ 8
      → 123 + 16 * length rest ≤ 500
      → (p1 p2 : Proxy) × (evs : List Event) × (rs : List Router) × (event : Event)
        × (build_an_circuit_6 e rand random (λ n. arrived h.address (done_bytes p.next_circuit)) p
            ≡ ok p1)
        × (network e own (h.address ∷ []) (h.router ∷ []) rest evs
            ≡ some (
              rs,
              replicate (suc (length rest)) (some (udp_sent own (done_bytes p.next_circuit))),
            ))
        × (p1.trace
            ≡ happen evs
                (log_hops p 0 (randomly_select_hops2 rand p.no_of_routers p.no_of_hops)).trace)
        × (tunnel_readable e p1 rands (some packet) ≡ ok (some p2))
        × (newest p2.trace ≡ some event)
        × (travel e (nodes_at (addresses_ahead (h ∷ rest)) rs) own event ≡ some (ping_of packet))
  ping_over_new_circuit p rand random own h rest rands packet sel stage small size echo room =
      let (p1, evs, rs, built, sent, talk, standing) =
        stands p rand random own h rest sel stage small (omega arith) in
      let (p2, event, reads, out, arrives) =
        packet_goes_out e laws p1 own (addresses_ahead (h ∷ rest)) rs (keys_ahead (h ∷ rest)) rands
          packet standing size echo (omega (arith, length-map (λ a. a.key) rest)) in
      (p1, p2, evs, rs, event, built, talk, sent, reads, out, arrives)

  -- From nothing to the reply. The proxy is in stage 6. It knows the addresses of the routers that
  -- it selects, whose identifiers are between 1 and 254 and whose ports are below 0xffff; their
  -- keys are made of random texts of 16 bytes; no key and no extension request has reached these
  -- routers, which are in stage 6; the circuit's identifier has 16 bits; the layers fit (`123 + 16
  -- * length rest <= 500`, `rest` being the hops behind the first). Then `Build_An_Circuit_6` ends
  -- without a fault if each of its rounds is answered with an ENC_CIRCUIT_EXTEND_DONE under the
  -- circuit's identifier; the messages that it sends, handed to the routers in that order, make
  -- them send the proxy just these answers. When the proxy then reads an echo request of 84 bytes
  -- from its tunnel, the routers carry it to the packet's destination. When a reply of 84 bytes
  -- arrives on the last router's raw socket, and the address of eth0 has 32 bits, the routers, as
  -- the building left them, carry it back over the circuit, each to the one that it has its key
  -- from, and the proxy, after the request, reads it without a fault and writes it to its tunnel,
  -- addressed to eth0 with a checksum that verifies, and otherwise unchanged at the offsets from 0
  -- to 9, from 12 to 15 and from 20 on.
  pub echo_over_new_circuit :
      (p : Proxy) (rand : ℕ) (random : ℕ → List ℕ) (own : SockAddr) (h : Ahead) (rest : List Ahead)
      (rands request reply : List ℕ) (from last : SockAddr)
      → AreSelected e
          (address_of_router p.sock_parent)
          random
          0
          (randomly_select_hops2 rand p.no_of_routers p.no_of_hops)
          (h ∷ rest)
      → p.stage ≡ 6
      → p.next_circuit < 65536
      → length request ≡ 84
      → get_or request 20 0 ≡ 8
      → length reply ≡ 84
      → IsBytes (λ i. get_or reply i 0)
      → e.nic 0 < 2 ^ 32
      → 123 + 16 * length rest ≤ 500
      → (p1 p2 p3 : Proxy) × (evs : List Event) × (rs : List Router) × (event : Event)
        × (bytes : List ℕ) × (g : Buffer) × (build_an_circuit_6 e rand random
              (λ n. arrived h.address (done_bytes p.next_circuit))
              p
            ≡ ok p1)
        × (network e own (h.address ∷ []) (h.router ∷ []) rest evs
            ≡ some (
              rs,
              replicate (suc (length rest)) (some (udp_sent own (done_bytes p.next_circuit))),
            ))
        × (p1.trace
            ≡ happen evs
                (log_hops p 0 (randomly_select_hops2 rand p.no_of_routers p.no_of_hops)).trace)
        × (tunnel_readable e p1 rands (some request) ≡ ok (some p2))
        × (newest p2.trace ≡ some event)
        × (travel e (nodes_at (addresses_ahead (h ∷ rest)) rs) own event ≡ some (ping_of request))
        × (travel_home e (reverse (nodes_at (addresses_ahead (h ∷ rest)) rs)) from reply
            ≡ some (udp_sent own bytes))
        × (router_readable e p2 (arrived last bytes) ≡ ok p3)
        × (newest p3.trace ≡ some (tun_written (slice g 0 84)))
        × IsDelivered e (λ i. get_or reply i 0) g
  echo_over_new_circuit p rand random own h rest rands request reply from last sel stage small size
        echo size' b nic room =
      let hops = addresses_ahead (h ∷ rest) in
      let keys = keys_ahead (h ∷ rest) in
      let (p1, evs, rs, built, sent, talk, standing) =
        stands p rand random own h rest sel stage small (omega arith) in
      let (p2, event, reads, out, arrives) =
        packet_goes_out e laws p1 own hops rs keys rands request standing size echo
          (omega (arith, length-map (λ a. a.key) rest)) in
      let (bytes, p3, g, back, takes, writes, whole) =
        packet_comes_home e laws p2 own hops rs keys from last reply
          (subst (λ c. IsStanding e own c hops rs keys)
            (sym (tunnel_readable-keeps e p1 rands (some request) reads)) standing)
          size' b nic (omega (arith, length-map (λ a. a.key) rest)) in
      (
        p1, p2, p3, evs, rs, event, bytes, g, built, talk, sent, reads, out, arrives, back, takes,
        writes, whole,
      )
