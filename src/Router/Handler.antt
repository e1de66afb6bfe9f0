-- ===== src/Router/Handler.antt =====
-- `Handler` of router.cc: one readable socket at a time, in the order in which `select` reports
-- them. The two logging blocks under `stage == 2 && stage == 3` are never reached and left out.
pub mod Stage6
pub mod Keyless
pub mod Lost
pub mod Stage5
use torupload.Base.{◌==◌, if◌then◌else◌, ◌+◌, ◌&&◌, ◌||◌, List, [], ◌∷◌}
use torupload.Base.Outcome.{Outcome, ok, fault, assertion, guard, ◌>>=◌, ◌>>◌}
use torupload.Message.{Message, load32, store32, htons, memcpy, u16}
use torupload.Machine.{Machine}
use torupload.Key.{encrypt_this_message}
use torupload.Socket.{Received, receive_message, raw_receive_message}
use torupload.Trace.{icmp_from_raw, incoming_packet}
use torupload.Router.State.{
  Router, proto_mini_tor, relay_this_data_fwd, relay_this_data_backwd, enc_circuit_extend,
  enc_circuit_extend_done, relay_data_fwd_enc, relay_data_bwd_enc, log_it, set_receiver,
  send_message,
}
use torupload.Router.State
use torupload.Router.Packet.{
  process_ip_packet, is_this_icmp_echo_request_for_tunnel, send_to_world,
  change_dest_address_to_eth0,
}
use torupload.Router.Wrap.{frame}
use torupload.Router.Relay.{relay_this_stuff}
use torupload.Router.Relay6.{circuit_key, relay_this_stuff6}
use torupload.Router.Create.{log_pkt, circuit_message}
use torupload.Router.Create6.{cct_creation_6}

-- A packet from the proxy in the stages without circuits: a ping to the tunnel network is
-- answered, anything else goes out in stages 3 and 4.
unfoldable pub plain_packet : Router → Message → Outcome (Router × Message)
unfolding send_message
plain_packet r m =
    if is_this_icmp_echo_request_for_tunnel m && m.actual_length == 84
    then (process_ip_packet m >>= λ m'.
        send_message (set_receiver r r.sock_child.last_sender) m' >>= λ r1. ok (r1, m'))
    else ok ((if r.stage == 4 || r.stage == 3 then send_to_world r m else r), m)

module _ (e : Machine) where
  -- Protocol 253 in stage 5.
  unfoldable pub stage5_message : Router → Message → Outcome (Router × Message)
  stage5_message r m =
      if m.msg 20 == relay_this_data_backwd || m.msg 20 == relay_this_data_fwd
      then (log_pkt r m >>= λ r1. relay_this_stuff e r1 m)
      else circuit_message r m

  -- Protocol 253 in stage 6.
  unfoldable pub stage6_message : Router → Message → Outcome (Router × Message)
  stage6_message r m = log_pkt r m >>= λ r1.
      if m.msg 20 == State.fake_diffie_hellman
        || (m.msg 20 == enc_circuit_extend || m.msg 20 == enc_circuit_extend_done)
      then cct_creation_6 e r1 m
      else if m.msg 20 == relay_data_bwd_enc || m.msg 20 == relay_data_fwd_enc
      then relay_this_stuff6 e r1 m
      else fault assertion

  -- A message on the UDP socket, by protocol and stage.
  unfoldable pub dispatch : Router → Message → Outcome (Router × Message)
  dispatch r m =
      if m.msg 9 == proto_mini_tor
      then (if r.stage == 5
          then stage5_message r m
          else if r.stage == 6
          then stage6_message r m
          else ok (r, m))
      else plain_packet r m

  abbrev keep_message : Router × Message → Router
  keep_message (r, m) = record r { r_message = m }

  -- The UDP socket is readable.
  unfoldable pub udp_readable : Router → Received → Outcome Router
  udp_readable r got = do
    (sock, m) ← receive_message r.sock_child r.r_message got
    out ← dispatch (record r { sock_child = sock; r_message = m }) m
    ok (keep_message out)

  -- A reply from outside in stages 3 and 4 goes to whoever sent last.
  unfoldable pub raw_plain : Router → Message → Outcome (Router × Message)
  unfolding send_message change_dest_address_to_eth0
  raw_plain r m = do
    let r1 = log_it r (icmp_from_raw (load32 m.msg 12) (load32 m.msg 16) (m.msg 20))
    let m' = change_dest_address_to_eth0 e m
    r2 ← send_message (set_receiver r1 r1.sock_child.last_sender) m'
    ok (r2, m')

  -- In stage 5 it is wrapped, and relayed backward by the same router.
  unfoldable pub raw_stage5 : Router → Message → Outcome (Router × Message)
  unfolding memcpy
  raw_stage5 r m = do
    let f = frame e.indeterminate relay_this_data_backwd (htons r.entry.given_circuit_id)
    guard (m.actual_length == 84) assertion
    g ← memcpy f 23 m.msg 0 m.actual_length
    (r1, m1) ← relay_this_stuff e r (record { msg = g; actual_length = 107 })
    ok (r1, m)

  -- In stage 6 the destination is blanked, and the packet is encrypted and sent to the requester.
  unfoldable pub raw_stage6 : Router → Message → Outcome (Router × Message)
  unfolding memcpy send_message circuit_key
  raw_stage6 r m = do
    let f = frame e.indeterminate relay_data_bwd_enc (htons r.entry.given_circuit_id)
    guard (m.actual_length == 84) assertion
    let r1 = log_it r (incoming_packet (load32 m.msg 12) (load32 m.msg 16) r.entry.given_circuit_id)
    let blank : Message = record m { msg = store32 m.msg 16 0 }
    copy ← memcpy e.indeterminate 0 blank.msg 0 blank.actual_length
    k ← circuit_key r.entry.ptr_to_key_for_cct
    q ← encrypt_this_message e k (record { msg = copy; actual_length = blank.actual_length })
    g ← memcpy f 23 q.msg 0 q.actual_length
    let wrapped : Message = record { msg = g; actual_length = u16 (23 + q.actual_length) }
    r2 ← send_message (set_receiver r1 r1.entry.circuit_requester_addr) wrapped
    ok (r2, blank)

  unfoldable pub raw_dispatch : Router → Message → Outcome (Router × Message)
  raw_dispatch r m =
      if r.stage == 4 || r.stage == 3
      then raw_plain r m
      else if r.stage == 5
      then raw_stage5 r m
      else if r.stage == 6
      then raw_stage6 r m
      else ok (r, m)

  -- The raw socket is readable.
  unfoldable pub raw_readable : Router → Received → Outcome Router
  raw_readable r got = do
    m ← raw_receive_message r.r_message got
    out ← raw_dispatch (record r { r_message = m }) m
    ok (keep_message out)

-- What `select` can report.
pub data Input : Type 0 where
  from_udp from_raw : Received → Input

module _ (e : Machine) where
  unfoldable pub handle : Router → Input → Outcome Router
  handle r (from_udp got) = udp_readable e r got
  handle r (from_raw got) = raw_readable e r got

  -- The loop, over what it is given to read.
  unfoldable pub handler : Router → List Input → Outcome Router
  handler r [] = ok r
  handler r (i ∷ inputs) = do r1 ← handle r i; handler r1 inputs
