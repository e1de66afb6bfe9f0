-- ===== src/Proxy/Loop/Course.antt =====
-- What the proxy's loop never changes.
use torupload.Proxy.Loop.{
  select_failed, read_socket, descriptor, reader, SelectResult, descriptors, TunnelRead, Readable,
  and_on, read_tunnel, readable, max_fd_plus1,
}
use torupload.Base.Outcome.{After, Outcome, After->>=, ok, After-ok, fault}
use torupload.Router.State.{send_message}
use torupload.Socket.{SockAddr, set_random_receiver, receive_message, Received}
use torupload.Proxy.Tunnel.{
  tunnel_readable, router_readable, plain_from_router, send_packet, relayed_from_router,
  onion_from_router,
}
use torupload.Proxy.State.{Proxy}
use torupload.Machine.{Machine}
use torupload.Onion.{TorHop}
use torupload.Base.{◌≡◌, arith, ℕ, Option, none, some, List, zero, suc, ◌+◌, refl, [], ◌∷◌, subst}

-- All of the proxy's state but the address to send to, the last sender, and what has been sent.
pub record Course : Type 0 where
  pub stage : ℕ
  pub no_of_routers : ℕ
  pub no_of_hops : ℕ
  pub next_circuit : ℕ
  pub my_cct_hops : List ℕ
  pub tor_cct_hops : List TorHop
  pub who_have_send_me : List (Option SockAddr)
  pub sender_count : ℕ

abbrev pub course : Proxy → Course
course p = record {
  stage = p.stage;
  no_of_routers = p.no_of_routers;
  no_of_hops = p.no_of_hops;
  next_circuit = p.next_circuit;
  my_cct_hops = p.my_cct_hops;
  tor_cct_hops = p.tor_cct_hops;
  who_have_send_me = p.sock_parent.who_have_send_me;
  sender_count = p.sock_parent.sender_count;
}

-- Of a proxy that the loop goes on with.
abbrev Stays : Course → Option Proxy → Type 0
Stays c none = Unit
Stays c (some p) = course p ≡ c

module _ (e : Machine) where
  router_readable-course :
      (p : Proxy) (got : Received) → After (λ p1. course p1 ≡ course p) (router_readable e p got)
  unfolding router_readable plain_from_router relayed_from_router onion_from_router receive_message
  router_readable-course p got = ground arith

  tunnel_readable-course :
      (p : Proxy) (rands : List ℕ) (got : Option (List ℕ))
      → After (Stays (course p)) (tunnel_readable e p rands got)
  unfolding tunnel_readable send_packet set_random_receiver send_message
  tunnel_readable-course p rands got = ground arith

  pub tunnel_readable-keeps :
      (p : Proxy) (rands : List ℕ) (got : Option (List ℕ)) {p1 : Proxy}
      → tunnel_readable e p rands got ≡ ok (some p1)
      → course p1 ≡ course p
  tunnel_readable-keeps p rands got run =
      After-ok (Stays (course p)) (tunnel_readable-course p rands got) run

  and_on-Stays :
      (c : Course) (m : Outcome (Option Proxy)) (later : Proxy → Outcome (Option Proxy))
      → After (Stays c) m
      → ((p : Proxy) → course p ≡ c → After (Stays c) (later p))
      → After (Stays c) (and_on m later)
  and_on-Stays c (ok none) later first rest = tt
  and_on-Stays c (ok (some p)) later first rest = rest p first
  and_on-Stays c (fault why) later first rest = tt

  module _ (sock_fd tun_fd : ℕ) where
    read_socket-course :
        (p : Proxy) (got : Option Received)
        → After (Stays (course p)) (read_socket e sock_fd tun_fd p got)
    read_socket-course p none = refl
    read_socket-course p (some got) =
        After->>= _ (Stays (course p)) (router_readable e p got) (λ p1. ok (some p1))
          (router_readable-course p got) (λ p1 same. same)

    read_tunnel-course :
        (p : Proxy) (t : Option TunnelRead)
        → After (Stays (course p)) (read_tunnel e sock_fd tun_fd p t)
    read_tunnel-course p none = refl
    read_tunnel-course p (some t) = tunnel_readable-course p t.rands t.bytes

    descriptor-course :
        (ready : Readable) (p : Proxy) (var : ℕ)
        → After (Stays (course p)) (descriptor e sock_fd tun_fd ready p var)
    unfolding descriptor
    descriptor-course ready p var =
        ground (arith, read_socket-course p ready.socket, read_tunnel-course p ready.tunnel)

    descriptors-course :
        (ready : Readable) (p : Proxy) (var rounds : ℕ)
        → After (Stays (course p)) (descriptors e sock_fd tun_fd ready p var rounds)
    unfolding descriptors
    descriptors-course ready p var zero = refl
    descriptors-course ready p var (suc rounds) =
        and_on-Stays (course p) (descriptor e sock_fd tun_fd ready p var) _
          (descriptor-course ready p var)
          (λ p1 same.
            subst (λ c. After (Stays c) (descriptors e sock_fd tun_fd ready p1 (var + 1) rounds))
              same (descriptors-course ready p1 (var + 1) rounds))

    reader-Stays :
        (p : Proxy) (reports : List SelectResult)
        → After (Stays (course p)) (reader e sock_fd tun_fd p reports)
    unfolding reader
    reader-Stays p [] = refl
    reader-Stays p (readable ready ∷ reports) =
        and_on-Stays (course p)
          (descriptors e sock_fd tun_fd ready p 0 (max_fd_plus1 e sock_fd tun_fd)) _
          (descriptors-course ready p 0 (max_fd_plus1 e sock_fd tun_fd))
          (λ p1 same.
            subst (λ c. After (Stays c) (reader e sock_fd tun_fd p1 reports)) same
              (reader-Stays p1 reports))
    reader-Stays p (select_failed ∷ reports) = tt

    -- No run of the loop of `tunnelPlusSock_reader` without a fault, over whatever `select` reports
    -- and whatever the socket and the tunnel hold, changes the proxy's stage, its numbers of
    -- routers and hops, its circuits, the next circuit's identifier, or its table of addresses.
    pub reader-course :
        (p : Proxy) (reports : List SelectResult) {p1 : Proxy}
        → reader e sock_fd tun_fd p reports ≡ ok (some p1)
        → course p1 ≡ course p
    reader-course p reports run = After-ok (Stays (course p)) (reader-Stays p reports) run
