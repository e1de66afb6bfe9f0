-- ===== src/Router/Relay.antt =====
-- `RelayThisStuff` of router.cc: the data messages of stage 5, whose payload is a plain IP packet
-- at offset 23 (its checksum at 33, source at 35, destination at 39).
use torupload.Base.{◌==◌, if◌then◌else◌}
use torupload.Base.Outcome.{Outcome, ok, fault, assertion, guard, ◌>>=◌, ◌>>◌}
use torupload.Message.{Message, load32, store16, store32, htons, memcpy}
use torupload.Machine.{Machine}
use torupload.Trace.{relay_packet, outgoing_packet, relay_reply}
use torupload.Router.State.{
  Router, last_hop_port_number, relay_this_data_fwd, relay_this_data_backwd, log_it, set_receiver,
  send_message,
}
use torupload.Router.Packet.{put_header_checksum, send_to_world}

module _ (e : Machine) where
  -- The forward message with the circuit mapped and the source replaced by the router's own.
  abbrev pub forwarded : Router → Message → Message
  forwarded r m = record m {
    msg = store32 (store16 m.msg 21 (htons r.entry.my_circuit_id)) 35 (e.nic r.my_router_id);
  }

  -- RELAY_THIS_DATA_FWD where the next hop is a router.
  unfoldable pub relay_to_next_hop : Router → Message → Outcome (Router × Message)
  unfolding send_message
  relay_to_next_hop r m = do
    let r1 = set_receiver r r.entry.next_hop_rtr_for_circuit
    let r2 = record r1 { entry = record r1.entry { prev_hop_real_ip = load32 m.msg 35 } }
    let m' = forwarded r m
    let line =
        relay_packet r.entry.given_circuit_id r.entry.my_circuit_id (load32 m.msg 35)
          (load32 m'.msg 35) (load32 m'.msg 39)
    r3 ← send_message (log_it r2 line) m'
    ok (r3, m')

  -- RELAY_THIS_DATA_FWD at the last hop.
  unfoldable pub relay_to_world : Router → Message → Outcome (Router × Message)
  unfolding memcpy send_to_world
  relay_to_world r m = do
    guard (m.actual_length == 107) assertion
    buffer ← memcpy e.indeterminate 0 m.msg 23 84
    let r1 = send_to_world r (record { msg = buffer; actual_length = 84 })
    let line = outgoing_packet r.entry.my_circuit_id (load32 m.msg 35) r.my_raw_ip (load32 m.msg 39)
    ok (log_it r1 line, m)

  -- RELAY_THIS_DATA_BACKWD where the requester is a router.
  unfoldable pub relay_to_previous_hop : Router → Message → Outcome (Router × Message)
  unfolding send_message
  relay_to_previous_hop r m = do
    let line =
        relay_reply r.entry.my_circuit_id r.entry.given_circuit_id (load32 m.msg 35)
          (load32 m.msg 39) r.entry.prev_hop_real_ip
    let f = store16 m.msg 21 (htons r.entry.given_circuit_id)
    let m' = record m { msg = put_header_checksum (store32 f 39 r.entry.prev_hop_real_ip) 23 }
    r1 ← send_message (set_receiver (log_it r line) r.entry.circuit_requester_addr) m'
    ok (r1, m')

  -- RELAY_THIS_DATA_BACKWD where the requester is the proxy.
  unfoldable pub relay_to_proxy : Router → Message → Outcome (Router × Message)
  unfolding send_message
  relay_to_proxy r m = do
    let line =
        relay_reply r.entry.my_circuit_id r.entry.given_circuit_id (load32 m.msg 35)
          (load32 m.msg 39) (e.nic 0)
    let m' = record m { msg = put_header_checksum (store32 m.msg 39 (e.nic 0)) 23 }
    r1 ← send_message (set_receiver (log_it r line) r.entry.circuit_requester_addr) m'
    ok (r1, m')

  -- `RelayThisStuff`. The message is passed by reference, hence its new contents in the result.
  unfoldable pub relay_this_stuff : Router → Message → Outcome (Router × Message)
  unfolding relay_to_next_hop relay_to_world relay_to_previous_hop relay_to_proxy
  relay_this_stuff r m =
      if m.msg 20 == relay_this_data_fwd
      then (if r.entry.next_hop_rtr_for_circuit.sin_port == last_hop_port_number
          then relay_to_world r m
          else relay_to_next_hop r m)
      else if m.msg 20 == relay_this_data_backwd
      then (if m.actual_length == 107
          then (if r.entry.circuit_requester_addr.sin_port == htons r.port_no_of_proxy
              then relay_to_proxy r m
              else relay_to_previous_hop r m)
          else fault assertion)
      else fault assertion
