-- ===== src/Examples/Parts.antt =====
-- The operations of the overlay, one by one.
use torupload.Proxy.Onion.Bytes.{blanked, data_message_lem}
use torupload.Router.Relay6.Exit.{released, relay_this_stuff6_exit}
use torupload.Onion.Peel.{onion_decrypt-onion_encrypt, wrap, onion_decrypt-wrap, length-wrap}
use torupload.Router.Packet.Reply.{IsReply, process_ip_packet-IsReply}
use torupload.Aes.RoundTrip.{padded, decrypt_with_padding-encrypt_with_padding}
use torupload.Router.Wrap.Bytes.{tor_bytes, IsTor}
use torupload.Key.RoundTrip.{packed, seal, length-seal, wire-packed}
use torupload.Router.Packet.{process_ip_packet}
use torupload.Proxy.Onion.{data_message}
use torupload.Onion.{onion_encrypt, onion_decrypt}
use torupload.Proxy.Hops.Laws.{InRange, Distinct, randomly_select_hops2_lem}
use torupload.Router.State.{relay_data_fwd_enc}
use torupload.Router.Handler.Stage6.{arrival, arrival-IsTor}
use torupload.Base.Outcome.{ok}
use torupload.Checksum.{csum}
use torupload.Router.Relay6.{relay_this_stuff6}
use torupload.Checksum.Verify.{IsBytes, put_checksum, csum-put_checksum}
use torupload.Message.{Message, wire}
use torupload.Socket.{slot, address_of_router, save_last_sender_info, SockAddr, set_random_receiver}
use torupload.Socket.Senders.{IsTable, saved, save_last_sender_info_lem, set_random_receiver_lem}
use torupload.Aes.{encrypt_with_padding, decrypt_with_padding}
use torupload.Proxy.Hops.{randomly_select_hops2}
use torupload.Base.{length, ℕ, ◌%◌, ◌<◌, ◌≡◌, refl, ◌≢◌, some, List, [], ◌∷◌, ◌++◌, arith}
use torupload.Examples.{
  toy, toy_aes-IsAes, text1, key2, keys, keys-AllKeys, hops, address2, packet, proxy, router1,
  router2, parent_socket, request,
}

-- A message of this size.
abbrev sample : ℕ → Message
sample n = record { msg = λ i. i % 256; actual_length = n }

-- A received message with this payload.
abbrev received : ℕ → List ℕ → Message
received c xs = arrival router1 (tor_bytes c 0 1 xs)

onion_decrypt-wrap_example :
    (r : Message) × (onion_decrypt toy hops 2 (packed toy (wrap toy keys packet)) ≡ ok r)
    × (wire r ≡ packet)
onion_decrypt-wrap_example =
    onion_decrypt-wrap toy toy_aes-IsAes hops keys (packed toy (wrap toy keys packet)) packet
      (refl, (refl, tt)) keys-AllKeys (wire-packed toy (wrap toy keys packet))
      (omega (arith, length-wrap toy toy_aes-IsAes keys packet))

onion_decrypt-onion_encrypt_example :
    (c p : Message) × (onion_encrypt toy hops (sample 84) 2 ≡ ok c)
    × (onion_decrypt toy hops 2 c ≡ ok p)
    × (wire p ≡ wire (sample 84))
onion_decrypt-onion_encrypt_example =
    onion_decrypt-onion_encrypt toy toy_aes-IsAes hops keys (sample 84) (refl, (refl, tt))
      keys-AllKeys (omega arith)

relay_this_stuff6_exit_example :
    relay_this_stuff6 toy router2
      (arrival router2 (tor_bytes relay_data_fwd_enc 0 1 (seal toy key2 packet)))
    ≡ ok (
      released toy toy_aes-IsAes router2 packet,
      arrival router2 (tor_bytes relay_data_fwd_enc 0 1 (seal toy key2 packet)),
    )
relay_this_stuff6_exit_example =
    relay_this_stuff6_exit toy toy_aes-IsAes router2 packet key2 refl keys-AllKeys.1.0 refl
      (arrival-IsTor router2 relay_data_fwd_enc 0 1 (seal toy key2 packet))
      (omega (arith, length-seal toy toy_aes-IsAes key2 packet)) refl refl

request-IsBytes : IsBytes request.msg
request-IsBytes i = ground arith

process_ip_packet-IsReply_example :
    (r : Message) × (process_ip_packet request ≡ ok r)
    × (r.actual_length ≡ 84)
    × IsReply request.msg r.msg
process_ip_packet-IsReply_example = process_ip_packet-IsReply request request-IsBytes refl

csum-put_checksum_example : csum (put_checksum request.msg 0 10 10) 0 10 ≡ 0
csum-put_checksum_example =
    csum-put_checksum request.msg 0 10 5 10 request-IsBytes (omega arith) (omega arith) refl

decrypt_with_padding-encrypt_with_padding_example :
    (out : List ℕ) × (encrypt_with_padding toy.aes (toy.aes.set_encrypt_key text1) packet ≡ ok out)
    × (length out ≡ padded 84)
    × (decrypt_with_padding toy.aes (toy.aes.set_decrypt_key text1) out ≡ ok packet)
decrypt_with_padding-encrypt_with_padding_example =
    decrypt_with_padding-encrypt_with_padding toy_aes-IsAes text1 packet refl

randomly_select_hops2_lem_example :
    (length (randomly_select_hops2 123456 5 3) ≡ 3)
    × InRange 5 (randomly_select_hops2 123456 5 3)
    × Distinct (randomly_select_hops2 123456 5 3)
randomly_select_hops2_lem_example = randomly_select_hops2_lem 123456 5 3 (omega arith) (omega arith)

parent_socket-IsTable : IsTable parent_socket
parent_socket-IsTable = record { places = refl; counted = refl }

save_last_sender_info_lem_example :
    (save_last_sender_info parent_socket 3 ≡ ok (saved parent_socket 3))
    × IsTable (saved parent_socket 3)
    × (address_of_router (saved parent_socket 3) 3 ≡ ok address2)
    × ((j : ℕ)
        → 0 < j
        → j ≢ 3
        → address_of_router (saved parent_socket 3) j ≡ address_of_router parent_socket j)
unfolding slot
save_last_sender_info_lem_example =
    save_last_sender_info_lem parent_socket 3 parent_socket-IsTable (omega arith) refl

set_random_receiver_lem_example :
    (i : ℕ) × (b : SockAddr) × (set_random_receiver parent_socket ((19 ∷ 4 ∷ []) ++ 31 ∷ [])
      ≡ ok (some (record parent_socket { send_to_address = b })))
    × (slot parent_socket.who_have_send_me i ≡ ok (some b))
unfolding slot
set_random_receiver_lem_example =
    set_random_receiver_lem parent_socket (19 ∷ 4 ∷ []) [] 31 address2 parent_socket-IsTable refl

data_message_lem_example :
    (m : Message) × (data_message toy proxy 1 1 (sample 84) ≡ ok m)
    × IsTor m relay_data_fwd_enc 0 1 (wrap toy keys (wire (blanked (sample 84))))
data_message_lem_example =
    data_message_lem toy toy_aes-IsAes proxy 1 1 (sample 84) keys (refl, (refl, tt)) refl refl
      (omega arith)
