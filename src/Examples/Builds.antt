-- ===== src/Examples/Builds.antt =====
-- A circuit over the two routers of the overlay, built from nothing.
use torupload.Circuit.Home.{IsDelivered}
use torupload.Circuit.Extend.Echo.{travel_home}
use torupload.Circuit.Forward.{ping_of}
use torupload.Circuit.{newest, travel}
use torupload.Proxy.Tunnel.{tunnel_readable, router_readable}
use mathlib.Core.List.{reverse}
use torupload.Circuit.Extend.Journey.{echo_over_new_circuit}
use torupload.Examples.{echo_request-IsBytes, echo_request}
use torupload.Text.{decimal}
use torupload.Router.Start.{report, router_process, address_part, ip_to_string}
use torupload.Circuit.Extend.Links.{handle-key_passed, handle-key_taken}
use torupload.Circuit.Extend.Whole.{IsBuilt, build_an_circuit_6-IsBuilt}
use torupload.Key.RoundTrip.{seal}
use torupload.Router.Contract.Handle.{handle-Round, Explained}
use torupload.Router.Wrap.Bytes.{tor_bytes}
use torupload.Circuit.Extend.Establish.{done_bytes, after_round, establish_hop-IsLink}
use torupload.Circuit.Extend.Table.{AreSelected}
use torupload.Key.{key_of_router}
use torupload.Message.{Message, Buffer, slice}
use torupload.Router.Contract.Safety.{handler-frozen, IsSound, handler-IsSound}
use torupload.Proxy.Build6.{build_an_circuit_6, establish_hop}
use torupload.Socket.{address_of_router, arrived, SockAddr}
use torupload.Base.Outcome.{After, ok, >>=-ok}
use torupload.Circuit.Extend.Plan.{Ahead, happen, network, nodes_at, addresses_ahead}
use torupload.Router.State.{Router}
use torupload.Proxy.Onion.{port_of_next_hop}
use torupload.Trace.{Event, udp_sent, tun_written}
use torupload.Proxy.Hops.{randomly_select_hops2, log_hops}
use torupload.Router.Handler.{handler, Input, handle, from_udp}
use torupload.Examples.{
  fresh_router, router1, text1, address2, toy, address1, proxy, proxy_address, key1, text2,
  toy_aes-IsAes, blank_message, keys-AllKeys,
}
use torupload.Base.{replicate, ℕ, ◌≡◌, refl, some, List, [], ◌∷◌, arith, get_or}
use torupload.Circuit.Extend.{IsFresh, IsLink, IsRoute, carry, exchange}
use torupload.Router.Contract.{view}
use torupload.Router.Contract.Origin.{KeyRound, IsKeyedBy, handler-IsKeyedBy}
use torupload.Router.Handler.Lost.{handle-lost}
use torupload.Socket.{UdpSocket, failed}
use torupload.Base.{◌⊎◌, inl, none}
use torupload.Base.Outcome.{fault, out_of_bounds}
use torupload.Message.{place}
use torupload.Router.State
use torupload.Circuit.Startup.{HasReported, router_process-HasReported}
use torupload.Proxy.State.{Proxy}

-- The text of every key.
abbrev random : ℕ → List ℕ
random n = text1

abbrev ahead1 : Ahead
ahead1 = record { address = address1; router = fresh_router 1; key = key_of_router toy text1 1 }

abbrev ahead2 : Ahead
ahead2 = record { address = address2; router = fresh_router 2; key = key_of_router toy text1 2 }

fresh1 : IsFresh (view (fresh_router 1))
fresh1 = record { stage = refl; no_key = refl; no_hop = refl }

fresh2 : IsFresh (view (fresh_router 2))
fresh2 = record { stage = refl; no_key = refl; no_hop = refl }

-- With 1 from `rand`, the hops are the routers 1 and 2.
selected :
    AreSelected toy
      (address_of_router proxy.sock_parent)
      random
      0
      (randomly_select_hops2 1 2 2)
      (ahead1 ∷ ahead2 ∷ [])
unfolding randomly_select_hops2 address_of_router
selected = (
  omega arith,
  omega arith,
  refl,
  refl,
  refl,
  omega arith,
  fresh1,
  (omega arith, omega arith, refl, refl, refl, omega arith, fresh2, tt),
)

build_an_circuit_6-IsBuilt_example :
    (p' : Proxy) × (evs : List Event) × (rs : List Router) × (build_an_circuit_6 toy 1 random
        (λ n. arrived address1 (done_bytes 2))
        proxy
      ≡ ok p')
    × (p'.trace ≡ happen evs (log_hops proxy 0 (randomly_select_hops2 1 2 2)).trace)
    × (network toy proxy_address (address1 ∷ []) (fresh_router 1 ∷ []) (ahead2 ∷ []) evs
        ≡ some (rs, replicate 2 (some (udp_sent proxy_address (done_bytes 2)))))
    × IsBuilt toy proxy_address proxy p' (randomly_select_hops2 1 2 2) (ahead1 ∷ ahead2 ∷ []) rs
build_an_circuit_6-IsBuilt_example =
    build_an_circuit_6-IsBuilt toy toy_aes-IsAes proxy 1 random proxy_address ahead1 (ahead2 ∷ [])
      selected (omega arith) (omega arith)

port_of_hop1 : port_of_next_hop proxy 0 ≡ ok 1002
unfolding port_of_next_hop
port_of_hop1 = refl

establish_hop-IsLink_example :
    (ev1 : Event) × (ev2 : Event) × (rs1 : List Router) × (rs2 : List Router) × (got : Message)
    × (carry toy (address2 ∷ []) (fresh_router 1 ∷ []) proxy_address (some ev1) ≡ some rs1)
    × (exchange toy (address2 ∷ []) rs1 proxy_address (some ev2)
        ≡ some (rs2, some (udp_sent proxy_address (done_bytes 2))))
    × ((from : SockAddr)
        → establish_hop toy 2 proxy blank_message 0 (arrived from (done_bytes 2))
          ≡ ok (after_round proxy from ev1 ev2, got))
    × IsRoute toy (IsLink toy key1 1002) proxy_address 2 (address2 ∷ []) rs2 []
establish_hop-IsLink_example =
    establish_hop-IsLink toy toy_aes-IsAes proxy blank_message 2 1002 [] key1 proxy_address
      (address2 ∷ []) (fresh_router 1 ∷ []) fresh1 (refl, tt) keys-AllKeys.0 port_of_hop1 refl
      (omega arith) (omega arith) (omega arith)

handle-Round_example :
    After
      (λ r.
        Explained toy
          (fresh_router 1)
          (from_udp (arrived proxy_address (tor_bytes State.fake_diffie_hellman 0 1 text1)))
          (view r))
      (handle toy
        (fresh_router 1)
        (from_udp (arrived proxy_address (tor_bytes State.fake_diffie_hellman 0 1 text1))))
handle-Round_example =
    handle-Round toy (fresh_router 1)
      (from_udp (arrived proxy_address (tor_bytes State.fake_diffie_hellman 0 1 text1)))

-- Another key reaches a router that has its own.
pub link1 : IsLink toy key1 1002 proxy_address 1 (view router1)
link1 = record {
  stage = refl;
  key = refl;
  schedules = keys-AllKeys.0;
  requester = refl;
  given = refl;
  has_key = refl;
  has_hop = refl;
  next = refl;
  own = omega arith;
}

abbrev pub another_key : List Input
another_key =
    from_udp (arrived proxy_address (tor_bytes State.fake_diffie_hellman 0 1 (seal toy key1 text2)))
    ∷ []

pub after_another_key : (r : Router) × (handler toy router1 another_key ≡ ok r)
unfolding handler
after_another_key =
    let passed_on =
      handle-key_passed toy toy_aes-IsAes router1 proxy_address 1 1002 text2 key1 link1
        (omega arith) (omega arith) in
    (passed_on.0, >>=-ok _ _ passed_on.2 refl)

handler-frozen_example : view after_another_key.0 ≡ view router1
handler-frozen_example = handler-frozen toy router1 another_key refl refl refl after_another_key.1

-- A router from its start on, and its first key.
started :
    (r : Router) × (router_process toy 6 1 77 1001 1000 ≡ ok r) × HasReported toy 6 1 77 1001 1000 r
unfolding report decimal address_part ip_to_string
started =
    router_process-HasReported toy 6 1 77 1001 1000 (λ e. absurd (omega (arith, e))) (omega arith)
      (omega arith)

abbrev first_key : List Input
first_key = from_udp (arrived proxy_address (tor_bytes State.fake_diffie_hellman 0 1 text1)) ∷ []

after_first_key : (r : Router) × (handler toy started.0 first_key ≡ ok r)
unfolding handler
after_first_key =
    let reported = started.2 in
    let taken =
      handle-key_taken toy toy_aes-IsAes started.0 proxy_address 1 text1
        (record {
          stage = reported.stage_is;
          no_key = reported.no_circuit.1;
          no_hop = reported.no_circuit.2;
        })
        (omega arith) refl in
    (taken.0, >>=-ok _ _ taken.1 refl)

handler-IsSound_example : IsSound (view after_first_key.0)
handler-IsSound_example = handler-IsSound toy 6 1 77 1001 1000 first_key started.1 after_first_key.1

handler-IsKeyedBy_example :
    ((after_first_key.0.entry.ptr_to_key_for_cct ≡ none)
      × (◌≡◌ {A = ℕ} 6 6
          → (at : Router) (sock : UdpSocket) (m : Message)
          → ¬ KeyRound toy started.0 first_key at sock m))
    ⊎ ((at : Router) × (sock : UdpSocket) × (m : Message) × KeyRound toy started.0 first_key at sock
          m
        × (at.entry.ptr_to_key_for_cct ≡ none)
        × IsKeyedBy toy sock.last_sender m (view after_first_key.0))
handler-IsKeyedBy_example =
    handler-IsKeyedBy toy 6 1 77 1001 1000 first_key started.1 after_first_key.1

-- The first router has handled a message, and its next receive fails.
abbrev used_router : Router
used_router = record router1 {
  r_message = record {
    msg = place (λ i. 0) 0 (tor_bytes State.fake_diffie_hellman 0 1 text1);
    actual_length = 39;
  };
}

handle-lost_example : handle toy used_router (from_udp failed) ≡ fault out_of_bounds
handle-lost_example = handle-lost toy used_router refl (inl refl)

echo_over_new_circuit_example :
    (p1 p2 p3 : Proxy) × (evs : List Event) × (rs : List Router) × (event : Event) × (bytes : List
      ℕ)
    × (g : Buffer) × (build_an_circuit_6 toy 1 random (λ n. arrived address1 (done_bytes 2)) proxy
        ≡ ok p1)
    × (network toy proxy_address (address1 ∷ []) (fresh_router 1 ∷ []) (ahead2 ∷ []) evs
        ≡ some (rs, replicate 2 (some (udp_sent proxy_address (done_bytes 2)))))
    × (p1.trace ≡ happen evs (log_hops proxy 0 (randomly_select_hops2 1 2 2)).trace)
    × (tunnel_readable toy p1 [] (some echo_request) ≡ ok (some p2))
    × (newest p2.trace ≡ some event)
    × (travel toy (nodes_at (addresses_ahead (ahead1 ∷ ahead2 ∷ [])) rs) proxy_address event
        ≡ some (ping_of echo_request))
    × (travel_home toy
          (reverse (nodes_at (addresses_ahead (ahead1 ∷ ahead2 ∷ [])) rs))
          address2
          echo_request
        ≡ some (udp_sent proxy_address bytes))
    × (router_readable toy p2 (arrived address1 bytes) ≡ ok p3)
    × (newest p3.trace ≡ some (tun_written (slice g 0 84)))
    × IsDelivered toy (λ i. get_or echo_request i 0) g
echo_over_new_circuit_example =
    echo_over_new_circuit toy toy_aes-IsAes proxy 1 random proxy_address ahead1 (ahead2 ∷ []) []
      echo_request echo_request address2 address1 selected refl (omega arith) refl refl refl
      echo_request-IsBytes (omega arith) (omega arith)
