-- ===== src/Examples/Trips.antt =====
-- Trips through the overlay of two routers.
use torupload.Router.State.{fake_diffie_hellman}
use torupload.Base.{List, get_or}
use torupload.Message.{Buffer, slice}
use torupload.Trace.{tun_written}
use torupload.Circuit.Home.{IsDelivered}
use torupload.Circuit.Home.Pong.{ping_comes_back}
use torupload.Proxy.Tunnel.{router_readable}
use torupload.Examples.{keys-AllKeys, echo_request-IsBytes}
use torupload.Base.{refl}
use torupload.Circuit.Handshake.{IsReady, handler-IsReady}
use torupload.Key.{key_from_proxy}
use torupload.Router.Handler.Stage6.{arrival}
use torupload.Circuit.Reply.{unaddressed, travel_reply}
use torupload.Circuit.Ping.{ping_goes_out}
use torupload.Key.RoundTrip.{seal}
use torupload.Circuit.Forward.{ping_of, travel-wrap}
use torupload.Circuit.Backward.{coats, travel-coats}
use torupload.Message.{wire}
use torupload.Base.Outcome.{ok}
use torupload.Onion.Peel.{wrap}
use torupload.Proxy.Tunnel.{tunnel_readable}
use torupload.Proxy.State.{Proxy}
use torupload.Router.Wrap.Bytes.{tor_bytes}
use torupload.Socket.{address_of_router, arrived}
use torupload.Router.Handler.{handler, handle, from_udp, from_raw}
use torupload.Onion.{hop_at}
use torupload.Router.State.{Router, relay_data_fwd_enc, relay_data_bwd_enc, enc_circuit_extend}
use torupload.Trace.{Event, udp_sent}
use torupload.Circuit.{travel, newest_of, newest}
use torupload.Base.{ℕ, ◌+◌, ◌*◌, ◌≡◌, some, [], ◌∷◌, arith}
use torupload.Examples.{
  toy, toy_aes-IsAes, text1, key1, key2, keys, address1, address2, proxy_address, proxy,
  fresh_router, router2, node1, node2, echo_request, packet, holds2, holds1,
}

ping_goes_out_example :
    (p' : Proxy) × (event : Event) × (tunnel_readable toy proxy [] (some echo_request)
      ≡ ok (some p'))
    × (newest p'.trace ≡ some event)
    × (travel toy (node1 ∷ node2 ∷ []) proxy_address event ≡ some (ping_of echo_request))
unfolding hop_at address_of_router
ping_goes_out_example =
    ping_goes_out toy toy_aes-IsAes proxy [] echo_request keys
      (record { router_id = 1; router_key = some key1 }) address1 proxy_address node1 (node2 ∷ [])
      refl refl refl (refl, (refl, tt)) refl
      (holds1, refl, (λ e. absurd (omega (arith, e))), (holds2, refl)) refl refl refl (omega arith)

travel_reply_example :
    (event : Event) × (l h : ℕ) × (newest_of
        (handle toy router2 (from_raw (arrived address2 echo_request)))
      ≡ some event)
    × (travel toy (node1 ∷ []) address2 event
        ≡ some (
            udp_sent proxy_address (
              tor_bytes relay_data_bwd_enc l h
                (wrap toy keys (wire (unaddressed (arrival router2 echo_request)))))))
travel_reply_example =
    travel_reply toy toy_aes-IsAes router2 (node1 ∷ []) key2 (key1 ∷ []) address2 address2
      proxy_address echo_request holds2 (holds1, refl, refl) refl (omega arith)

handler-IsReady_example :
    (r' : Router) × (handler toy (fresh_router 1) (
        from_udp (arrived proxy_address (tor_bytes fake_diffie_hellman 0 1 text1))
        ∷ from_udp (
            arrived proxy_address (
              tor_bytes enc_circuit_extend 0 1
                (seal toy (key_from_proxy toy text1) (3 ∷ 234 ∷ []))))
        ∷ [])
      ≡ ok r')
    × IsReady toy (fresh_router 1) r' proxy_address 0 1 (3 + 256 * 234) text1
handler-IsReady_example =
    handler-IsReady toy toy_aes-IsAes (fresh_router 1) proxy_address 0 1 3 234 text1 refl refl refl
      (omega arith) (omega arith) refl

travel-wrap_example :
    travel toy
      (node1 ∷ node2 ∷ [])
      proxy_address
      (udp_sent address1 (tor_bytes relay_data_fwd_enc 0 1 (wrap toy keys packet)))
    ≡ some (ping_of packet)
travel-wrap_example =
    travel-wrap toy toy_aes-IsAes packet refl refl node1 (node2 ∷ []) keys proxy_address address1 0
      1 (holds1, refl, (λ e. absurd (omega (arith, e))), (holds2, refl)) (omega arith) refl

travel-coats_example :
    (l' h' : ℕ) × (travel toy
        (node2 ∷ node1 ∷ [])
        address2
        (udp_sent address2 (tor_bytes relay_data_bwd_enc 0 1 packet))
      ≡ some (
          udp_sent proxy_address
            (tor_bytes relay_data_bwd_enc l' h' (coats toy (key2 ∷ key1 ∷ []) packet))))
travel-coats_example =
    travel-coats toy toy_aes-IsAes (node2 ∷ node1 ∷ []) (key2 ∷ key1 ∷ []) address2 address2
      proxy_address 0 1 packet (holds2, refl, (holds1, refl, refl)) (omega arith)

ping_comes_back_example :
    (event : Event) × (bytes : List ℕ) × (p' : Proxy) × (g : Buffer) × (newest_of
        (handle toy router2 (from_raw (arrived address2 echo_request)))
      ≡ some event)
    × (travel toy (node1 ∷ []) address2 event ≡ some (udp_sent proxy_address bytes))
    × (router_readable toy proxy (arrived address1 bytes) ≡ ok p')
    × (newest p'.trace ≡ some (tun_written (slice g 0 84)))
    × IsDelivered toy (λ i. get_or echo_request i 0) g
ping_comes_back_example =
    ping_comes_back toy toy_aes-IsAes proxy router2 (node1 ∷ []) key2 (key1 ∷ []) address2 address2
      proxy_address address1 echo_request holds2 (holds1, refl, refl) refl (refl, (refl, tt))
      keys-AllKeys refl refl echo_request-IsBytes (omega arith) (omega arith)
