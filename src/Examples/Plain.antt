-- ===== src/Examples/Plain.antt =====
-- A circuit of stage 5 over two routers; sockets, dumps and `main` on small inputs.
use torupload.Circuit.Forward.{ping_of}
use torupload.Circuit.{newest, travel}
use torupload.Proxy.Tunnel.{tunnel_readable}
use torupload.Socket.Open.Binding.{first_or_none, bind_socket_for_listening-first}
use torupload.Circuit.Extend.Plan.{happen, nodes_at}
use torupload.Base.Outcome.{fault, exit, ok}
use torupload.Proxy.Build.{build_an_circuit}
use torupload.Router.Contract.{view}
use torupload.LogFile.{hex_dump_text}
use torupload.LogFile.HexText.{read_dump, read_dump-hex_dump_text}
use torupload.Proxy.Hops.{randomly_select_hops2}
use torupload.Circuit.Plain.{IsOpen}
use torupload.Trace.{Event}
use torupload.Examples.{address2, proxy, address1, fresh_router, toy, proxy_address, echo_request}
use torupload.Socket.Open.{
  unbound, closed, bound, BindState, bind_socket_for_listening, addresses, bound,
}
use torupload.Config.Main.{main, Answers, main_failed}
use torupload.Router.State.{Router}
use torupload.Circuit.Plain.Pong.{plain_ping_comes_back}
use torupload.Message.{Buffer, slice, htons}
use torupload.Circuit.Home.{IsDelivered}
use torupload.Router.Handler.{handle, from_raw}
use torupload.Circuit.{Node, newest_of}
use torupload.Proxy.Tunnel.{router_readable}
use torupload.Trace.{udp_sent, tun_written}
use torupload.Socket.{arrived}
use torupload.Examples.{router1, router2, echo_request-IsBytes}
use torupload.Base.{get_or}
use torupload.Circuit.Plain.Journey.{packet_over_plain_circuit}
use torupload.Circuit.Plain.Build.{Next, AreNext, requests, IsAnswer}
use torupload.Circuit.Plain.Round.{sent_events}
use torupload.Socket.{failed, address_of_router, SockAddr, pos, ℤ, negsuc}
use torupload.Proxy.State.{Proxy}
use torupload.Base.{ℕ, ◌≡◌, refl, List, [], ◌∷◌, arith, All, ◌==◌, if◌then◌else◌, Option, some}

abbrev plain_proxy : Proxy
plain_proxy = record proxy { stage = 5; my_cct_hops = [] }

abbrev plain_router : ℕ → Router
plain_router i = record (fresh_router i) { stage = 5 }

abbrev next1 : Next
next1 = record { number = 1; address = address1; router = plain_router 1 }

abbrev next2 : Next
next2 = record { number = 2; address = address2; router = plain_router 2 }

unused : (i : ℕ) → IsOpen (view (plain_router i))
unused i = record { stage = refl; first = refl }

plain_next : AreNext (address_of_router plain_proxy.sock_parent) (next1 ∷ next2 ∷ [])
unfolding address_of_router
plain_next = (
  (λ same. absurd (omega (arith, same))),
  refl,
  omega arith,
  unused 1,
  ((λ same. absurd (omega (arith, same))), refl, omega arith, unused 2, tt),
)

one_then_two : randomly_select_hops2 1 2 2 ≡ 1 ∷ 2 ∷ []
unfolding randomly_select_hops2
one_then_two = refl

packet_over_plain_circuit_example :
    (p1 p2 : Proxy) × (evs : List Event) × (rs : List Router) × (backs : List (Option Event))
    × (event : Event) × (build_an_circuit toy 1 (λ n. failed) plain_proxy ≡ ok p1)
    × (sent_events p1.trace ≡ happen evs [])
    × (requests toy proxy_address (address1 ∷ []) (plain_router 1 ∷ []) (next2 ∷ []) evs
        ≡ some (rs, backs))
    × All (IsAnswer proxy_address) backs
    × (tunnel_readable toy p1 [] (some echo_request) ≡ ok (some p2))
    × (newest p2.trace ≡ some event)
    × (travel toy (nodes_at (address1 ∷ address2 ∷ []) rs) proxy_address event
        ≡ some (ping_of echo_request))
packet_over_plain_circuit_example =
    packet_over_plain_circuit toy plain_proxy 1 (λ n. failed) proxy_address next1 (next2 ∷ []) []
      echo_request one_then_two plain_next refl (omega arith) refl refl

abbrev plain_router1 : Router
plain_router1 = record router1 { stage = 5; port_no_of_proxy = htons 1000 }

abbrev plain_router2 : Router
plain_router2 = record router2 { stage = 5 }

abbrev plain_node1 : Node
plain_node1 = record { address = address1; router = plain_router1 }

plain_ping_comes_back_example :
    (event : Event) × (bytes : List ℕ) × (p' : Proxy) × (g : Buffer) × (newest_of
        (handle toy plain_router2 (from_raw (arrived address2 echo_request)))
      ≡ some event)
    × (travel toy (plain_node1 ∷ []) address2 event ≡ some (udp_sent proxy_address bytes))
    × (router_readable toy plain_proxy (arrived address1 bytes) ≡ ok p')
    × (newest p'.trace ≡ some (tun_written (slice g 0 84)))
    × IsDelivered toy (λ i. get_or echo_request i 0) g
plain_ping_comes_back_example =
    plain_ping_comes_back toy plain_proxy plain_router2 (plain_node1 ∷ []) address2 address2
      proxy_address address1 echo_request (refl, refl, (refl, refl, refl)) refl refl
      echo_request-IsBytes (omega arith)

-- Only open sockets can be bound; the first address is in use.
abbrev bind_result : BindState → SockAddr → ℤ
bind_result unbound a = if a.sin_port == 1001 then negsuc 0 else pos 0
bind_result closed a = negsuc 0
bind_result (bound b) a = negsuc 0

bind_socket_for_listening-first_example :
    bind_socket_for_listening bind_result (addresses (address1 ∷ address2 ∷ []))
    ≡ ok (first_or_none bind_result (address1 ∷ address2 ∷ []))
bind_socket_for_listening-first_example =
    bind_socket_for_listening-first bind_result (address1 ∷ address2 ∷ []) (λ a. refl)

read_dump-hex_dump_text_example :
    read_dump (hex_dump_text 0x52 (0 ∷ 0xff ∷ [])) ≡ some (0x52 ∷ 0 ∷ 0xff ∷ [])
read_dump-hex_dump_text_example =
    read_dump-hex_dump_text 0x52 (0 ∷ 0xff ∷ []) (omega arith) (omega arith, (omega arith, tt))

-- No configuration file is named.
abbrev no_file : Answers
no_file = record {
  socket = pos 3;
  found = addresses (proxy_address ∷ []);
  bind = bind_result;
  name_result = pos 0;
  name_length = 16;
  name = proxy_address;
  sigaction = pos 0;
  argc = 1;
}

main_failed_example : main no_file [] ≡ fault (exit 1)
main_failed_example = main_failed no_file [] refl
