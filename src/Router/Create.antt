-- ===== src/Router/Create.antt =====
-- The circuit messages of stage 5, in `Handler` of router.cc.
pub mod Passing
pub mod Requests
use torupload.Base.{◌==◌, if◌then◌else◌, ℕ, ◌+◌, ◌-◌, ◌*◌, true}
use torupload.Base.Outcome.{Outcome, ok, assertion, guard, ◌>>=◌, ◌>>◌}
use torupload.Message.{Message, load16, store8, store16, htons, u16}
use torupload.Trace.{pkt, new_extend, forwarding_extend}
use torupload.Router.State.{
  Router, CircuitInfoEntry, circuit_extend, circuit_extend_done, log_it, set_receiver, send_message,
}
use torupload.Router.Wrap.{hex_dump}

-- The `pkt from port` line about a message.
unfoldable pub log_pkt : Router → Message → Outcome Router
unfolding hex_dump
log_pkt r m = do
  bytes ← hex_dump m
  ok (log_it r (pkt (htons r.sock_child.last_sender.sin_port) (m.actual_length - 20) bytes))

-- `givenCicuitID + myRouterID * 256 + 1`, in an `unsigned short`.
abbrev pub own_circuit_id : Router → ℕ → ℕ
own_circuit_id r given = u16 (given + r.my_router_id * 256 + 1)

-- The entry that the first CIRCUIT_EXTEND makes; the address of the next hop is its port alone.
abbrev pub entry_of_request : Router → Message → CircuitInfoEntry
entry_of_request r m =
    let given = htons (load16 m.msg 21) in
    record r.entry {
      circuit_requester_addr = r.sock_child.last_sender;
      given_circuit_id = given;
      my_circuit_id = own_circuit_id r given;
      next_hop_rtr_for_circuit = record r.entry.next_hop_rtr_for_circuit {
        sin_port = load16 m.msg 23;
      };
    }

-- A CIRCUIT_EXTEND for this router.
unfoldable pub accept_extend : Router → Message → Outcome (Router × Message)
unfolding log_pkt send_message
accept_extend r m = do
  let r1 = record r { entry = entry_of_request r m }
  r2 ← log_pkt r1 m
  let r3 = log_it r2 (
      new_extend r1.entry.given_circuit_id r1.entry.my_circuit_id
        (htons r.sock_child.last_sender.sin_port))
  let r4 = record r3 { to_forward = true }
  let m' : Message = record { msg = store8 m.msg 20 circuit_extend_done; actual_length = 23 }
  r5 ← send_message (set_receiver r4 r4.sock_child.last_sender) m'
  ok (r5, m')

-- A CIRCUIT_EXTEND for a router further on.
unfoldable pub forward_extend : Router → Message → Outcome (Router × Message)
unfolding log_pkt send_message
forward_extend r m = do
  let m' = record m { msg = store16 m.msg 21 (htons r.entry.my_circuit_id) }
  r1 ← send_message (set_receiver r r.entry.next_hop_rtr_for_circuit) m'
  r2 ← log_pkt r1 m'
  ok (
    log_it r2 (
        forwarding_extend r.entry.given_circuit_id r.entry.my_circuit_id
          (htons r.entry.next_hop_rtr_for_circuit.sin_port)),
    m',
  )

-- A CIRCUIT_EXTEND_DONE on its way back.
unfoldable pub forward_extend_done : Router → Message → Outcome (Router × Message)
unfolding log_pkt send_message
forward_extend_done r m = do
  guard (m.actual_length == 23) assertion
  r1 ← send_message (set_receiver r r.entry.circuit_requester_addr) m
  r2 ← log_pkt r1 m
  ok (
    log_it r2 (
        forwarding_extend r.entry.my_circuit_id r.entry.given_circuit_id
          (htons r.entry.circuit_requester_addr.sin_port)),
    m,
  )

-- What stage 5 does with a message that is no data; other commands are passed over.
unfoldable pub circuit_message : Router → Message → Outcome (Router × Message)
unfolding accept_extend forward_extend forward_extend_done
circuit_message r m =
    if m.msg 20 == circuit_extend
    then (if r.to_forward then forward_extend r m else accept_extend r m)
    else if m.msg 20 == circuit_extend_done
    then forward_extend_done r m
    else ok (r, m)
