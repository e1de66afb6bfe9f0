-- ===== src/Router/Relay6.antt =====
-- `RelayThisStuff6` of router.cc: the data messages of stage 6, whose payload is encrypted.
pub mod Layers
pub mod Exit
use torupload.Base.{◌==◌, if◌then◌else◌, Option, none, some}
use torupload.Base.Outcome.{Outcome, ok, fault, assertion, null_pointer, guard, ◌>>=◌, ◌>>◌}
use torupload.Message.{Message, load32, store16, htons}
use torupload.Machine.{Machine}
use torupload.Key.{MyKey, encrypt_this_message, decrypt_this_message}
use torupload.Trace.{relay_encrypted, relay_reply_encrypted}
use torupload.Router.State.{
  Router, last_hop_port_number, relay_data_fwd_enc, relay_data_bwd_enc, log_it, set_receiver,
  send_message,
}
use torupload.Router.Packet.{send_to_world}
use torupload.Router.Wrap.{payload, put_payload}

-- `CircuitInfoEntryTable[0].ptrToKEYForCCt`, dereferenced.
unfoldable pub circuit_key : Option MyKey → Outcome MyKey
circuit_key none = fault null_pointer
circuit_key (some k) = ok k

module _ (e : Machine) where
  -- A message with its circuit identifier replaced and one layer taken off its payload; the
  -- decrypted payload comes with it.
  unfoldable pub peel : Router → Message → Outcome (Message × Message)
  unfolding circuit_key payload put_payload
  peel r m = do
    let m1 = record m { msg = store16 m.msg 21 (htons r.entry.my_circuit_id) }
    p ← payload e m1
    k ← circuit_key r.entry.ptr_to_key_for_cct
    q ← decrypt_this_message e k p
    m2 ← put_payload m1 q
    ok (m2, q)

  -- RELAY_DATA_FWD_ENC where the next hop is a router.
  unfoldable pub relay_peeled : Router → Message → Outcome (Router × Message)
  unfolding peel send_message
  relay_peeled r m = do
    (m', q) ← peel r m
    r1 ← send_message (set_receiver r r.entry.next_hop_rtr_for_circuit) m'
    ok (r1, m')

  -- RELAY_DATA_FWD_ENC at the last hop: the message itself is left as it is.
  unfoldable pub relay_plain_to_world : Router → Message → Outcome (Router × Message)
  unfolding circuit_key payload send_to_world
  relay_plain_to_world r m = do
    p ← payload e m
    k ← circuit_key r.entry.ptr_to_key_for_cct
    q ← decrypt_this_message e k p
    guard (q.actual_length == 84) assertion
    guard (load32 q.msg 12 == 0) assertion
    ok (send_to_world r q, m)

  -- RELAY_DATA_BWD_ENC: one more layer, to the requester, the proxy or not.
  unfoldable pub relay_sealed : Router → Message → Outcome (Router × Message)
  unfolding circuit_key payload put_payload send_message
  relay_sealed r m = do
    let m1 = record m { msg = store16 m.msg 21 (htons r.entry.given_circuit_id) }
    p ← payload e m1
    k ← circuit_key r.entry.ptr_to_key_for_cct
    q ← encrypt_this_message e k p
    m2 ← put_payload m1 q
    r1 ← send_message (set_receiver r r.entry.circuit_requester_addr) m2
    ok (r1, m2)

  -- `RelayThisStuff6`.
  unfoldable pub relay_this_stuff6 : Router → Message → Outcome (Router × Message)
  unfolding relay_peeled relay_plain_to_world relay_sealed
  relay_this_stuff6 r m =
      if m.msg 20 == relay_data_fwd_enc
      then ((if r.entry.next_hop_rtr_for_circuit.sin_port == last_hop_port_number
            then relay_plain_to_world r m
            else relay_peeled r m)
          >>= λ (r1, m1).
              ok (log_it r1 (relay_encrypted r.entry.given_circuit_id r.entry.my_circuit_id), m1))
      else if m.msg 20 == relay_data_bwd_enc
      then (relay_sealed r m >>= λ (r1, m1).
          ok (log_it r1 (relay_reply_encrypted r.entry.my_circuit_id r.entry.given_circuit_id), m1))
      else fault assertion
