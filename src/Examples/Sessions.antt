-- ===== src/Examples/Sessions.antt =====
-- The whole program on two routers, and a circuit in use.
use torupload.Circuit.Home.{IsDelivered}
use torupload.Circuit.Extend.Establish.{done_bytes}
use torupload.Message.{Buffer, slice}
use torupload.Proxy.Hops.{randomly_select_hops2}
use torupload.Circuit.Forward.{ping_of}
use torupload.Examples.Builds.{link1, after_another_key, another_key}
use torupload.Circuit.Extend.Plan.{nodes_at}
use torupload.Router.Contract.{view}
use torupload.Circuit.{newest, travel}
use torupload.Circuit.Extend.Echo.{packet_goes_out, travel_home, echo_in_session}
use torupload.System.Whole.{Echoes, echo_from_start}
use torupload.Proxy.Tunnel.{tunnel_readable, router_readable}
use torupload.Proxy.Loop.Order.{in_order, descriptors-in_order}
use torupload.Base.Outcome.{ok, >>=-ok}
use torupload.Trace.{Event, udp_sent, tun_written}
use torupload.Proxy.Loop.Course.{course, reader-course}
use torupload.Circuit.Extend.{IsLink}
use torupload.Router.Handler.{handler}
use torupload.Onion.{hop_at}
use torupload.Proxy.State.{Proxy}
use torupload.Proxy.Loop.{reader, descriptors, Readable, readable}
use torupload.Socket.{pos, slot, arrived}
use torupload.Circuit.Extend.Session.{IsStanding, HaveServed}
use torupload.System.Reported.{IsHost}
use torupload.Config.{forked}
use torupload.Examples.{
  echo_request-IsBytes, text1, toy, key2, echo_request, proxy, proxy_address, router1, address1,
  address2, router2, toy_aes-IsAes, keys-AllKeys, keys, key1,
}
use mathlib.Core.List.{Perm, reverse}
use mathlib.Core.List.Perm
use native.Mathlib.Decide.{ℕ_discrete}
use torupload.Text.{decimal}
use torupload.Router.Start.{report, router_process, address_part, ip_to_string}
use torupload.Proxy.Start.{proxy_process, new_proxy}
use torupload.System.{Host, started, home_address, supply_of, router_address, hops_of}
use torupload.Base.{
  refl, List, [], ◌∷◌, arith, ◌+◌, length, get_or, ℕ, ◌≤◌, ◌<◌, ◌≡◌, sym, some, All, ◌∙◌, none,
  subst,
}

abbrev host : Host
host = record {
  pid = λ i. 77;
  port = λ i. 1000 + i;
  reported_port = λ i. 0;
  proxy_port = 1000;
  garbage = 0;
  rand = 1;
  random = λ var. text1;
}

-- The reports of the two routers fit a message.
text_fits : (i : ℕ) → 0 < i → i ≤ 2 → length (report 6 i 77 0 (toy.nic i)) < 500
unfolding report decimal address_part ip_to_string
text_fits i low high = elim (ℕ_discrete i 1) [
  | yes one ↦ subst (λ j. length (report 6 j 77 0 (toy.nic j)) < 500) (sym one) (omega arith)
  | no more ↦ subst (λ j. length (report 6 j 77 0 (toy.nic j)) < 500) (sym (two more)) (omega arith)
]
  where
    two : ¬ (i ≡ 1) → i ≡ 2
    two more = omega arith

host-IsHost : IsHost toy host 2
host-IsHost = record {
  few = omega arith;
  ports = λ i low high. omega arith;
  proxy_port = omega arith;
  texts = text_fits;
  keys = λ var. refl;
}

-- The second router is the first to report.
other_order : Perm (2 ∷ 1 ∷ []) (forked (pos 2))
unfolding forked
other_order = Perm.swap 1 2 []

echo_from_start_example :
    All (λ i. router_process toy 6 i 77 0 1000 ≡ ok (started toy host 6 i)) (forked (pos 2))
    × Echoes toy
        (home_address host)
        (proxy_process toy
          (supply_of toy host 6 (2 ∷ 1 ∷ []) (
            arrived
              (router_address host (get_or (randomly_select_hops2 1 2 2) 0 0))
              (done_bytes 1)))
          1000
          (new_proxy 6 2 2))
        (hops_of toy host 6 0 (randomly_select_hops2 1 2 2))
        1
        []
        echo_request
        echo_request
        address2
        address1
echo_from_start_example =
    echo_from_start toy toy_aes-IsAes host 2 2 host-IsHost (2 ∷ 1 ∷ []) [] echo_request echo_request
      address2 address1 other_order (omega arith) (omega arith) refl refl refl echo_request-IsBytes
      (omega arith)

-- The circuit of the overlay, in use: the proxy has read a packet, the first router another key.
link2 : IsLink toy key2 0xffff address1 258 (view router2)
link2 = record {
  stage = refl;
  key = refl;
  schedules = keys-AllKeys.1.0;
  requester = refl;
  given = refl;
  has_key = refl;
  has_hop = refl;
  next = refl;
  own = omega arith;
}

standing :
    IsStanding toy proxy_address
      (course proxy)
      (address1 ∷ address2 ∷ [])
      (router1 ∷ router2 ∷ [])
      keys
unfolding hop_at slot
standing = record {
  id = 1;
  first = record { router_id = 1; router_key = some key1 };
  address = address1;
  stage = refl;
  has = (refl, (refl, tt));
  schedules = keys-AllKeys;
  count = refl;
  front = refl;
  known = refl;
  positive = omega arith;
  port = refl;
  circuit = record {
    front = key1 ∷ [];
    last = key2;
    split = refl;
    route = (link1, omega arith, link2);
  };
}

abbrev one_request : Readable
one_request = record {
  socket = none;
  tunnel = some (record { bytes = some echo_request; rands = [] });
}

sent_one : (p : Proxy) × (reader toy 3 4 proxy (readable one_request ∷ []) ≡ ok (some p))
unfolding reader
sent_one =
    let (p, event, reads, out, arrives) =
      packet_goes_out toy toy_aes-IsAes proxy proxy_address (address1 ∷ address2 ∷ [])
        (router1 ∷ router2 ∷ []) keys [] echo_request standing refl refl (omega arith) in
    (
      p,
      >>=-ok _ _
          (descriptors-in_order toy 3 4 one_request proxy (λ same. absurd (omega (arith, same)))
            ∙ reads)
          refl,
    )

served : HaveServed toy (router1 ∷ router2 ∷ []) (after_another_key.0 ∷ router2 ∷ [])
unfolding handler
served = ((another_key, after_another_key.1), (([], refl), tt))

echo_in_session_example :
    ((p1 : Proxy) × (event : Event) × (tunnel_readable toy sent_one.0 [] (some echo_request)
        ≡ ok (some p1))
      × (newest p1.trace ≡ some event)
      × (travel toy
            (nodes_at (address1 ∷ address2 ∷ []) (after_another_key.0 ∷ router2 ∷ []))
            proxy_address
            event
          ≡ some (ping_of echo_request)))
    × ((bytes : List ℕ) × (p1 : Proxy) × (g : Buffer) × (travel_home toy
            (reverse (nodes_at (address1 ∷ address2 ∷ []) (after_another_key.0 ∷ router2 ∷ [])))
            address2
            echo_request
          ≡ some (udp_sent proxy_address bytes))
        × (router_readable toy sent_one.0 (arrived address1 bytes) ≡ ok p1)
        × (newest p1.trace ≡ some (tun_written (slice g 0 84)))
        × IsDelivered toy (λ i. get_or echo_request i 0) g)
echo_in_session_example =
    echo_in_session toy toy_aes-IsAes 3 4 proxy proxy_address (address1 ∷ address2 ∷ [])
      (router1 ∷ router2 ∷ []) keys (readable one_request ∷ []) sent_one.0
      (after_another_key.0 ∷ router2 ∷ []) [] echo_request echo_request address2 address1 standing
      sent_one.1 served refl refl refl echo_request-IsBytes (omega arith) (omega arith)

reader-course_example : course sent_one.0 ≡ course proxy
reader-course_example = reader-course toy 3 4 proxy (readable one_request ∷ []) sent_one.1

descriptors-in_order_example :
    descriptors toy 4 3 one_request proxy 0 5 ≡ in_order toy 4 3 one_request proxy
descriptors-in_order_example =
    descriptors-in_order toy 4 3 one_request proxy (λ same. absurd (omega (arith, same)))
