-- ===== src/Router/Create6.antt =====
-- `CCtCreation_6` of router.cc: keys and encrypted extension requests of stage 6.
pub mod Handshake
pub mod Passing
use torupload.Base.{leb, ◌==◌, if◌then◌else◌, ℕ, ◌-◌, true, some, List, ◌∷◌}
use torupload.Base.Outcome.{Outcome, ok, fault, assertion, guard, out_of_bounds, ◌>>=◌, ◌>>◌}
use torupload.Message.{Message, load16, store8, store16, htons, slice}
use torupload.Machine.{Machine}
use torupload.Key.{key_from_proxy, decrypt_this_message}
use torupload.Socket.{loopback, set_reciver_by_name}
use torupload.Trace.{
  fake_diffie_hellman, fake_diffie_hellman_forward, new_secure_extend, forwarding_extend_done,
}
use torupload.Router.State.{
  Router, proto_mini_tor, enc_circuit_extend, enc_circuit_extend_done, log_it, set_receiver,
  send_message, CircuitInfoEntry,
}
use torupload.Router.State
use torupload.Router.Wrap.{payload}
use torupload.Router.Relay6.{circuit_key, peel}
use torupload.Router.Create.{own_circuit_id}

module _ (e : Machine) where
  -- The first key message is for this router.
  unfoldable pub take_key : Router → Message → Outcome (Router × Message)
  take_key r m = do
    let given = htons (load16 m.msg 21)
    guard (m.actual_length == 39) assertion
    let entry : CircuitInfoEntry = record r.entry {
      circuit_requester_addr = r.sock_child.last_sender;
      given_circuit_id = given;
      ptr_to_key_for_cct = some (key_from_proxy e (slice m.msg 23 16));
    }
    let r1 = record r { to_forward_fdh = true; entry = entry }
    ok (log_it r1 (fake_diffie_hellman given (slice m.msg 23 16)), m)

  -- A later one goes on to the next hop, one layer thinner; the port is printed and parsed again.
  unfoldable pub forward_key : Router → Message → Outcome (Router × Message)
  unfolding peel send_message
  forward_key r m = do
    (m', q) ← peel e r m
    let port = htons r.entry.next_hop_rtr_for_circuit.sin_port
    let r1 = record r { sock_child = set_reciver_by_name r.sock_child loopback port }
    r2 ← send_message r1 m'
    guard (leb q.actual_length 500) out_of_bounds
    ok (log_it r2 (fake_diffie_hellman_forward r.entry.given_circuit_id (dumped q)), m')
    where
      dumped : Message → List ℕ
      dumped q = q.msg 0 ∷ slice q.msg 1 (q.actual_length - 1)

  -- The first extension request names this router's next hop, and is answered.
  unfoldable pub accept_secure_extend : Router → Message → Outcome (Router × Message)
  unfolding payload circuit_key send_message
  accept_secure_extend r m = do
    let own = own_circuit_id r r.entry.given_circuit_id
    p ← payload e m
    k ← circuit_key r.entry.ptr_to_key_for_cct
    q ← decrypt_this_message e k p
    guard (q.actual_length == 2) assertion
    let next = record r.entry.next_hop_rtr_for_circuit { sin_port = load16 q.msg 0 }
    let m' : Message = record { msg = store8 m.msg 20 enc_circuit_extend_done; actual_length = 23 }
    guard (load16 m'.msg 21 == htons r.entry.given_circuit_id) assertion
    let entry : CircuitInfoEntry = record r.entry {
      my_circuit_id = own;
      next_hop_rtr_for_circuit = next;
    }
    let r1 = record r { to_forward_ece = true; entry = entry }
    r2 ← send_message (set_receiver r1 r1.sock_child.last_sender) m'
    ok (log_it r2 (new_secure_extend r.entry.given_circuit_id own (htons next.sin_port)), m')

  -- A later one goes on to the next hop.
  unfoldable pub forward_secure_extend : Router → Message → Outcome (Router × Message)
  unfolding peel send_message
  forward_secure_extend r m = do
    (m', q) ← peel e r m
    r1 ← send_message (set_receiver r r.entry.next_hop_rtr_for_circuit) m'
    ok (r1, m')

  -- An answer goes back to the requester under the identifier that the requester gave.
  unfoldable pub return_extend_done : Router → Message → Outcome (Router × Message)
  unfolding send_message
  return_extend_done r m = do
    guard (load16 m.msg 21 == htons r.entry.my_circuit_id) assertion
    guard (m.actual_length == 23) assertion
    let m' = record m { msg = store16 m.msg 21 (htons r.entry.given_circuit_id) }
    r1 ← send_message (set_receiver r r.entry.circuit_requester_addr) m'
    ok (
      log_it r1 (
          forwarding_extend_done r.entry.my_circuit_id r.entry.given_circuit_id
            (htons r.entry.circuit_requester_addr.sin_port)),
      m',
    )

  -- `CCtCreation_6`.
  unfoldable pub cct_creation_6 : Router → Message → Outcome (Router × Message)
  unfolding take_key forward_key accept_secure_extend forward_secure_extend return_extend_done
  cct_creation_6 r m =
      if m.msg 9 == proto_mini_tor
      then (if m.msg 20 == State.fake_diffie_hellman
          then (if r.to_forward_fdh then forward_key r m else take_key r m)
          else if m.msg 20 == enc_circuit_extend
          then (if r.to_forward_ece then forward_secure_extend r m else accept_secure_extend r m)
          else if m.msg 20 == enc_circuit_extend_done
          then return_extend_done r m
          else ok (r, m))
      else fault assertion
