-- ===== src/Circuit/Extend/Echo.antt =====
-- Echo requests out over a circuit of stage 6 that is in use, and the replies back over it.
use torupload.Onion.{hop_at}
use torupload.Circuit.Extend.Whole.{IsBuilt}
use torupload.Circuit.Extend.Table.{AreSelected, AreSelected-AllKeys, hop_at-zero, table}
use torupload.Circuit.Extend.Route.{and_then-some}
use torupload.Circuit.Home.Pong.{ping_comes_back, length-reverse}
use torupload.Circuit.Ping.{ping_goes_out}
use torupload.Circuit.Forward.{ping_of}
use torupload.Circuit.Extend.Plan.{nodes_at, Ahead, addresses_ahead, keys_ahead}
use torupload.Circuit.Extend.Session.{HaveServed, IsStanding-served}
use torupload.Message.{Buffer, slice}
use torupload.Proxy.Tunnel.{tunnel_readable, router_readable}
use torupload.Checksum.Verify.{IsBytes}
use torupload.Router.Handler.{handle, from_raw}
use torupload.Proxy.Loop.Course.{course, reader-course}
use torupload.Onion.Peel.{HasKeys, AllKeys}
use torupload.Proxy.Loop.{SelectResult, reader}
use torupload.Circuit.Extend.WayBack.{IsHomeward, IsCircuit-IsPath, IsCircuit-IsHomeward}
use torupload.Base.Outcome.{ok}
use torupload.Circuit.Home.{IsDelivered}
use mathlib.Core.List.{reverse-reverse}
use torupload.Circuit.Extend.Session.{IsStanding}
use torupload.Circuit.Extend.{and_then}
use torupload.Trace.{Event, udp_sent, tun_written}
use torupload.Key.{MyKey}
use torupload.Router.State.{Router}
use torupload.Proxy.State.{Proxy}
use torupload.Aes.{IsAes}
use torupload.Circuit.{Node, newest_of, newest, travel}
use torupload.Socket.{address_of_router, slot_of, UdpSocket, SockAddr, slot, arrived}
use torupload.Machine.{Machine}
use mathlib.Core.List.{reverse}
use torupload.Base.{
  ◌≡◌, sym, ◌∙◌, arith, length, get_or, ℕ, ◌+◌, ◌-◌, ◌*◌, ◌^◌, ◌≤◌, ◌<◌, Option, none, some, List,
  [], ◌∷◌, subst, length-map, suc, refl, ap,
}

-- The last router, which is the first here, reads a packet on its raw socket; what it sends goes
-- along the others.
unfoldable pub travel_home : Machine → List Node → SockAddr → List ℕ → Option Event
travel_home e [] from packet = none
travel_home e (n ∷ back) from packet =
    and_then (newest_of (handle e n.router (from_raw (arrived from packet))))
      (λ event. travel e back n.address event)

pub address_of_router-slot :
    (s : UdpSocket) (r : ℕ) (a : SockAddr)
    → 0 < r
    → slot s.who_have_send_me (r - 1) ≡ ok (some a)
    → address_of_router s r ≡ ok a
unfolding address_of_router slot_of
address_of_router-slot s r a pos known = ground arith

slot-address_of_router :
    (s : UdpSocket) (r : ℕ) (a : SockAddr)
    → 0 < r
    → address_of_router s r ≡ ok a
    → slot s.who_have_send_me (r - 1) ≡ ok (some a)
unfolding address_of_router slot_of
slot-address_of_router s r a pos known = ground arith

module _ (e : Machine) (laws : IsAes e.aes) where
  travel_home-Homeward :
      (p : Proxy) (nodes : List Node) (ks : List MyKey) (own from last : SockAddr) (packet : List ℕ)
      → IsHomeward e nodes ks own
      → p.stage ≡ 6
      → HasKeys p.tor_cct_hops (reverse ks)
      → AllKeys e (reverse ks)
      → length ks ≡ p.no_of_hops
      → length packet ≡ 84
      → IsBytes (λ i. get_or packet i 0)
      → e.nic 0 < 2 ^ 32
      → 107 + 16 * length ks ≤ 500
      → (bytes : List ℕ) × (p' : Proxy) × (g : Buffer) × (travel_home e nodes from packet
          ≡ some (udp_sent own bytes))
        × (router_readable e p (arrived last bytes) ≡ ok p')
        × (newest p'.trace ≡ some (tun_written (slice g 0 84)))
        × IsDelivered e (λ i. get_or packet i 0) g
  unfolding travel_home
  travel_home-Homeward p [] ks own from last packet way stage has keys count size b small room =
      absurd way
  travel_home-Homeward p (n ∷ nodes) [] own from last packet way stage has keys count size b small
        room =
      absurd way
  travel_home-Homeward p (n ∷ nodes) (k ∷ ks) own from last packet (holds, way) stage has keys count
        size b small room =
      let (event, bytes, p', g, sends, back, reads, writes, whole) =
        ping_comes_back e laws p n.router nodes k ks from n.address own last packet holds way stage
          has keys (omega arith) size b small (omega arith) in
      (bytes, p', g, and_then-some _ _ sends back, reads, writes, whole)

  pub packet_goes_out :
      (p : Proxy) (own : SockAddr) (hops : List SockAddr) (rs : List Router) (keys : List MyKey)
      (rands packet : List ℕ)
      → IsStanding e own (course p) hops rs keys
      → length packet ≡ 84
      → get_or packet 20 0 ≡ 8
      → 107 + 16 * length keys ≤ 500
      → (p' : Proxy) × (event : Event) × (tunnel_readable e p rands (some packet) ≡ ok (some p'))
        × (newest p'.trace ≡ some event)
        × (travel e (nodes_at hops rs) own event ≡ some (ping_of packet))
  packet_goes_out p own [] rs keys rands packet ready size echo room = absurd ready.circuit.route
  packet_goes_out p own (a ∷ hops) [] keys rands packet ready size echo room =
      absurd ready.circuit.route
  packet_goes_out p own (a ∷ hops) (r ∷ rs) keys rands packet ready size echo room =
      ping_goes_out e laws p rands packet keys ready.first ready.address own
        (record { address = a; router = r }) (nodes_at hops rs) ready.stage ready.front
        (address_of_router-slot p.sock_parent ready.first.router_id ready.address ready.positive
          ready.known)
        ready.has ready.count (IsCircuit-IsPath e ready.circuit) ready.port size echo room

  pub packet_comes_home :
      (p : Proxy) (own : SockAddr) (hops : List SockAddr) (rs : List Router) (keys : List MyKey)
      (from last : SockAddr) (packet : List ℕ)
      → IsStanding e own (course p) hops rs keys
      → length packet ≡ 84
      → IsBytes (λ i. get_or packet i 0)
      → e.nic 0 < 2 ^ 32
      → 107 + 16 * length keys ≤ 500
      → (bytes : List ℕ) × (p' : Proxy) × (g : Buffer) × (travel_home e
            (reverse (nodes_at hops rs))
            from
            packet
          ≡ some (udp_sent own bytes))
        × (router_readable e p (arrived last bytes) ≡ ok p')
        × (newest p'.trace ≡ some (tun_written (slice g 0 84)))
        × IsDelivered e (λ i. get_or packet i 0) g
  packet_comes_home p own hops rs keys from last packet ready size b small room =
      travel_home-Homeward p (reverse (nodes_at hops rs)) (reverse keys) own from last packet
        (IsCircuit-IsHomeward e ready.circuit) ready.stage
        (subst (HasKeys p.tor_cct_hops) (sym (reverse-reverse keys)) ready.has)
        (subst (AllKeys e) (sym (reverse-reverse keys)) ready.schedules)
        (length-reverse keys ∙ ready.count) size b small (omega (arith, length-reverse keys))

  -- A circuit just built is standing.
  pub IsBuilt-IsStanding :
      (p p' : Proxy) (random : ℕ → List ℕ) (selected : List ℕ) (own : SockAddr) (h : Ahead)
      (rest : List Ahead) (rs : List Router)
      → AreSelected e (address_of_router p.sock_parent) random 0 selected (h ∷ rest)
      → IsBuilt e own p p' selected (h ∷ rest) rs
      → p.stage ≡ 6
      → p.no_of_hops ≡ suc (length rest)
      → IsStanding e own (course p') (addresses_ahead (h ∷ rest)) rs (keys_ahead (h ∷ rest))
  IsBuilt-IsStanding p p' random [] own h rest rs sel built stage count = absurd sel
  IsBuilt-IsStanding p p' random (r ∷ sel) own h rest rs
        (pos, low, size, key, known, port, fresh, more) built stage count =
      record {
        id = p.next_circuit;
        first = record { router_id = r; router_key = some h.key };
        address = h.address;
        stage = built.stage ∙ stage;
        has = built.keys;
        schedules =
            AreSelected-AllKeys e (address_of_router p.sock_parent) random 0 (r ∷ sel) (h ∷ rest)
              (pos, low, size, key, known, port, fresh, more);
        count = omega (arith, length-map (λ a. a.key) rest, built.count, count);
        front =
            ap (λ hs. hop_at hs 0) built.hops
            ∙ hop_at-zero (record { router_id = r; router_key = some h.key }) (table sel rest);
        known =
            ap (λ t. slot t (r - 1)) built.senders
            ∙ slot-address_of_router p.sock_parent r h.address pos known;
        positive = pos;
        port = refl;
        circuit = built.routers;
      }

  -- A circuit of stage 6 in use. At some time the proxy's table fits the routers' circuit: each
  -- router has its key, its next hop and its requester, the last one the end mark. Since then the
  -- loop of the proxy has run without a fault over whatever `select` has reported, and each router
  -- has handled whatever datagrams without a fault. The layers fit (`107 + 16 * length keys <=
  -- 500`), and the address of eth0 has 32 bits. Then an echo request of 84 bytes that the proxy
  -- reads from its tunnel is still carried out to its destination, and a reply of 84 bytes that
  -- arrives on the last router's raw socket still comes back over the circuit to the proxy's
  -- tunnel, addressed to eth0 with a checksum that verifies and otherwise unchanged at the offsets
  -- from 0 to 9, from 12 to 15 and from 20 on.
  pub echo_in_session :
      (sock_fd tun_fd : ℕ) (p0 : Proxy) (own : SockAddr) (hops : List SockAddr) (rs0 : List Router)
      (keys : List MyKey) (reports : List SelectResult) (p : Proxy) (rs : List Router)
      (rands request reply : List ℕ) (from last : SockAddr)
      → IsStanding e own (course p0) hops rs0 keys
      → reader e sock_fd tun_fd p0 reports ≡ ok (some p)
      → HaveServed e rs0 rs
      → length request ≡ 84
      → get_or request 20 0 ≡ 8
      → length reply ≡ 84
      → IsBytes (λ i. get_or reply i 0)
      → e.nic 0 < 2 ^ 32
      → 107 + 16 * length keys ≤ 500
      → ((p1 : Proxy) × (event : Event) × (tunnel_readable e p rands (some request) ≡ ok (some p1))
          × (newest p1.trace ≡ some event)
          × (travel e (nodes_at hops rs) own event ≡ some (ping_of request)))
        × ((bytes : List ℕ) × (p1 : Proxy) × (g : Buffer) × (travel_home e
                (reverse (nodes_at hops rs))
                from
                reply
              ≡ some (udp_sent own bytes))
            × (router_readable e p (arrived last bytes) ≡ ok p1)
            × (newest p1.trace ≡ some (tun_written (slice g 0 84)))
            × IsDelivered e (λ i. get_or reply i 0) g)
  echo_in_session sock_fd tun_fd p0 own hops rs0 keys reports p rs rands request reply from last
        ready run served size echo size' b small room =
      let now =
        subst (λ c. IsStanding e own c hops rs keys)
          (sym (reader-course e sock_fd tun_fd p0 reports run))
          (IsStanding-served e laws ready served) in
      (
        packet_goes_out p own hops rs keys rands request now size echo room,
        packet_comes_home p own hops rs keys from last reply now size' b small room,
      )
