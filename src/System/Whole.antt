-- ===== src/System/Whole.antt =====
-- From the processes that `main` starts to the echo that comes back: stage 6.
use torupload.Config.Forked.{forked-InRange}
use torupload.System.Selected.{hops_of-AreSelected, length-hops_of, proxy_process-build}
use torupload.Circuit.Home.{IsDelivered}
use torupload.Router.Start.{router_process}
use torupload.Config.{forked}
use mathlib.Core.List.{Perm, reverse, Mem, mem-cons_self, mem-cons_of_mem}
use torupload.Circuit.Extend.Journey.{echo_over_new_circuit}
use torupload.Key.{key_of_router}
use torupload.Checksum.Verify.{IsBytes}
use torupload.Circuit.Extend.Echo.{travel_home}
use torupload.Proxy.Hops.{randomly_select_hops2, log_hops}
use torupload.Circuit.Forward.{ping_of}
use torupload.Proxy.Tunnel.{tunnel_readable, router_readable}
use torupload.Circuit.Extend.Establish.{done_bytes}
use torupload.Proxy.Build6.{build_an_circuit_6}
use torupload.System.Registered.{IsRegistered, enter_tain-IsRegistered}
use torupload.Message.{Buffer, slice}
use torupload.Router.State.{Router}
use torupload.System.Registered.{before}
use torupload.Circuit.{newest, travel}
use torupload.Proxy.Register.{enter_tain_router_up_msges}
use torupload.Trace.{Event, udp_sent, tun_written}
use torupload.Circuit.Extend.Plan.{Ahead, happen, network, addresses_ahead, nodes_at}
use torupload.Proxy.Start.{proxy_process, new_proxy}
use torupload.Circuit.Extend.Table.{AreSelected}
use torupload.Proxy.Hops.Laws.{InRange, length-randomly_select_hops2, randomly_select_hops2_lem}
use torupload.Socket.{address_of_router, SockAddr, arrived, pos}
use torupload.Proxy.State.{Proxy}
use torupload.System.Reported.{IsHost, started_lem}
use torupload.System.{
  Host, router_address, started, hops_of, in_turn, reports_of, home_address, supply_of,
}
use torupload.Aes.{IsAes}
use torupload.Machine.{Machine}
use torupload.Base.{
  ℕ, ◌≤◌, ◌<◌, ◌≡◌, refl, List, [], ◌∷◌, arith, length, get_or, take, drop, replicate, some, map,
  suc, ◌%◌, ◌^◌, sym, ap, ◌∙◌, subst, ap₂, All,
}
use torupload.Base.Outcome.{ok, Outcome}

-- After this start of the proxy an echo goes out over the hops `hs`, and comes back. `built` is how
-- the start ends, `id` the circuit's identifier, `rest` what the proxy had done before it sent a key.
pub record Echoes (e : Machine) (own : SockAddr) (built : Outcome Proxy) (hs : List Ahead) (id : ℕ)
    (rands request reply : List ℕ) (from last : SockAddr) : Type 0 where
  pub p1 : Proxy
  pub p2 : Proxy
  pub p3 : Proxy
  pub evs : List Event
  pub earlier : List Event
  pub rs : List Router
  pub event : Event
  pub bytes : List ℕ
  pub g : Buffer
  pub runs : built ≡ ok p1
  pub sent : p1.trace ≡ happen evs earlier
  pub talk :
      network e own (take 1 (addresses_ahead hs)) (take 1 (map (λ a. a.router) hs)) (drop 1 hs) evs
      ≡ some (rs, replicate (length hs) (some (udp_sent own (done_bytes id))))
  pub reads : tunnel_readable e p1 rands (some request) ≡ ok (some p2)
  pub out : newest p2.trace ≡ some event
  pub arrives : travel e (nodes_at (addresses_ahead hs) rs) own event ≡ some (ping_of request)
  pub back :
      travel_home e (reverse (nodes_at (addresses_ahead hs) rs)) from reply
      ≡ some (udp_sent own bytes)
  pub takes : router_readable e p2 (arrived last bytes) ≡ ok p3
  pub writes : newest p3.trace ≡ some (tun_written (slice g 0 84))
  pub whole : IsDelivered e (λ i. get_or reply i 0) g

module _ (e : Machine) (laws : IsAes e.aes) (h : Host) (n hops : ℕ) (host : IsHost e h n) where
  All-each : {P : ℕ → Type 0} (xs : List ℕ) → ((x : ℕ) → Mem x xs → P x) → All P xs
  All-each [] each = tt
  All-each (x ∷ xs) each = (each x mem-cons_self, All-each xs (λ y m. each y (mem-cons_of_mem x m)))

  Echoes-registered :
      (p : Proxy) (order selected rands request reply : List ℕ) (from last : SockAddr)
      → enter_tain_router_up_msges e h.garbage
          (in_turn (reports_of e h 6 order))
          (before e h n hops host)
        ≡ ok p
      → IsRegistered e h n hops host p
      → 0 < hops
      → hops ≤ n
      → randomly_select_hops2 h.rand n hops ≡ selected
      → length request ≡ 84
      → get_or request 20 0 ≡ 8
      → length reply ≡ 84
      → IsBytes (λ i. get_or reply i 0)
      → e.nic 0 < 2 ^ 32
      → Echoes e
          (home_address h)
          (proxy_process e
            (supply_of e h 6 order
              (arrived (router_address h (get_or selected 0 0)) (done_bytes 1)))
            h.proxy_port
            (new_proxy 6 n hops))
          (hops_of e h 6 0 selected)
          1
          rands
          request
          reply
          from
          last
  Echoes-registered p order [] rands request reply from last run is least few sel size echo size' b
        nic =
      absurd (omega (arith, length-randomly_select_hops2 h.rand n hops, ap length sel))
  Echoes-registered p order (r ∷ rest) rands request reply from last run is least few sel size echo
        size' b nic =
      let h0 : Ahead = record {
        address = router_address h r;
        router = started e h 6 r;
        key = key_of_router e (h.random 0) (r % 256);
      } in
      let same : randomly_select_hops2 h.rand p.no_of_routers p.no_of_hops ≡ r ∷ rest =
        ap₂ (randomly_select_hops2 h.rand) is.same.routers is.same.hops ∙ sel in
      let (
        p1, p2, p3, evs, rs, event, bytes, g, runs, talk, sent, reads, out, arrives, back, takes,
        writes, whole,
      ) =
        echo_over_new_circuit e laws p h.rand h.random (home_address h) h0 (hops_of e h 6 1 rest)
          rands request reply from last
          (subst
            (λ l.
              AreSelected e (address_of_router p.sock_parent) h.random 0 l
                (hops_of e h 6 0 (r ∷ rest)))
            (sym same)
            (hops_of-AreSelected e h n hops host p 0 (r ∷ rest) is.known (
              subst (InRange n) sel (randomly_select_hops2_lem h.rand n hops (omega arith) few).1)))
          is.same.stage (omega (arith, is.same.circuit)) size echo size' b nic
          (omega (
            arith,
            length-hops_of e h n hops host 1 rest,
            host.few,
            length-randomly_select_hops2 h.rand n hops,
            ap length sel,
          )) in
      record {
        p1 = p1;
        p2 = p2;
        p3 = p3;
        evs = evs;
        earlier = (log_hops p 0 (randomly_select_hops2 h.rand p.no_of_routers p.no_of_hops)).trace;
        rs = rs;
        event = event;
        bytes = bytes;
        g = g;
        runs =
            proxy_process-build e h n hops host _ p run is least few
            ∙ ap
                (λ id.
                  build_an_circuit_6 e h.rand h.random
                    (λ var. arrived (router_address h r) (done_bytes id)) p)
                (sym is.same.circuit)
            ∙ runs;
        sent = sent;
        talk =
            talk
            ∙ ap
                (λ id. some (
                  rs,
                  replicate (suc (length (hops_of e h 6 1 rest)))
                      (some (udp_sent (home_address h) (done_bytes id))),
                ))
                is.same.circuit;
        reads = reads;
        out = out;
        arrives = arrives;
        back = back;
        takes = takes;
        writes = writes;
        whole = whole;
      }

  -- The whole program in stage 6. The host gives at most six routers ports below 0xffff and reports
  -- that fit a message, whatever ports these name, and key texts of 16 bytes; the circuit has at
  -- least one hop and no more hops than routers. Then every router process that `main` forks
  -- reaches its loop without a fault. In whatever order their reports come to the proxy, `Proxy`
  -- registers them, selects its hops and builds its circuit without a fault, if each round of the
  -- building is answered with an ENC_CIRCUIT_EXTEND_DONE under the circuit's identifier, 1. The
  -- messages that it sends in doing so, handed to the routers in that order, make them send it just
  -- these answers, one in each round. When the proxy then reads an echo request of 84 bytes from
  -- its tunnel, the routers carry it until the last one sends the 64 bytes behind the IP header to
  -- the packet's destination. When a reply of 84 bytes arrives on the last router's raw socket, and
  -- the address of eth0 has 32 bits, the routers, as the building left them, carry it back, and the
  -- proxy writes 84 bytes to its tunnel: the header's checksum verifies, the destination is the
  -- address of eth0, and at the offsets from 0 to 9, from 12 to 15 and from 20 on the bytes are
  -- those that arrived.
  pub echo_from_start :
      (order rands request reply : List ℕ) (from last : SockAddr)
      → Perm order (forked (pos n))
      → 0 < hops
      → hops ≤ n
      → length request ≡ 84
      → get_or request 20 0 ≡ 8
      → length reply ≡ 84
      → IsBytes (λ i. get_or reply i 0)
      → e.nic 0 < 2 ^ 32
      → All
          (λ i.
            router_process e 6 i (h.pid i) (h.reported_port i) h.proxy_port ≡ ok (started e h 6 i))
          (forked (pos n))
        × Echoes e
            (home_address h)
            (proxy_process e
              (supply_of e h 6 order (
                arrived
                  (router_address h (get_or (randomly_select_hops2 h.rand n hops) 0 0))
                  (done_bytes 1)))
              h.proxy_port
              (new_proxy 6 n hops))
            (hops_of e h 6 0 (randomly_select_hops2 h.rand n hops))
            1
            rands
            request
            reply
            from
            last
  echo_from_start order rands request reply from last perm least few size echo size' b nic =
      let (p, run, is) = enter_tain-IsRegistered e h n hops host order perm in
      (
        All-each (forked (pos n))
            (λ i m. (started_lem e h n host i (forked-InRange i n m).0 (forked-InRange i n m).1).0),
        Echoes-registered p order (randomly_select_hops2 h.rand n hops) rands request reply from
            last run is least few refl size echo size' b nic,
      )
