-- ===== src/Proxy/Build.antt =====
-- Circuits of stage 5 in proxy.cc.
use torupload.Base.{◌==◌, if◌then◌else◌, ℕ, ◌+◌, ◌-◌, ◌&&◌, List, [], ◌∷◌, ◌++◌}
use torupload.Base.Outcome.{Outcome, ok, fault, out_of_bounds, ◌>>=◌}
use torupload.Message.{Message, Buffer, load16, store16, htons}
use torupload.Machine.{Machine}
use torupload.Socket.{
  UdpSocket, Received, receive_message, address_of_router, set_this_router_as_sender,
}
use torupload.Trace.{pkt, extend_done}
use torupload.Router.State.{circuit_extend, circuit_extend_done, last_hop_port_number}
use torupload.Router.Wrap.{frame, hex_dump}
use torupload.Proxy.State.{Proxy, log_it, send_message}
use torupload.Proxy.Hops.{randomly_select_hops2, log_hops}

-- `CreateExtendCctMessage`: 25 bytes, the identifier in host order.
unfoldable pub create_extend_cct_message : Machine → UdpSocket → ℕ → ℕ → Outcome Buffer
unfolding address_of_router
create_extend_cct_message e s cct_id next_hop =
    let f = frame e.indeterminate circuit_extend cct_id in
    if next_hop == last_hop_port_number
    then ok (store16 f 23 last_hop_port_number)
    else (address_of_router s next_hop >>= λ a. ok (store16 f 23 a.sin_port))

-- The log lines about an answer; they dump the message that was sent.
abbrev pub log_done : Proxy → Message → Message → List ℕ → Proxy
log_done p sent answer bytes =
    log_it
      (log_it p (pkt (htons p.sock_parent.last_sender.sin_port) (sent.actual_length - 20) bytes))
      (extend_done (load16 answer.msg 21) (htons p.sock_parent.last_sender.sin_port))

-- One hop of `Build_An_Circuit`: the next hop is `next_hop`, the answer is `got`. An answer of any
-- other kind is passed over.
unfoldable pub extend_circuit :
    Machine → ℕ → Proxy → Message → ℕ → Received → Outcome (Proxy × Message)
unfolding create_extend_cct_message send_message hex_dump
extend_circuit e cct_id p answer next_hop got = do
  f ← create_extend_cct_message e p.sock_parent cct_id next_hop
  let sent : Message = record { msg = f; actual_length = 25 }
  p1 ← send_message p sent
  (sock, answer') ← receive_message p1.sock_parent answer got
  bytes ← hex_dump sent
  let p2 = record p1 { sock_parent = sock }
  ok (
    (if answer'.msg 20 == circuit_extend_done && answer'.actual_length == 23
        then log_done p2 sent answer' bytes
        else p2),
    answer',
  )

-- The hops behind the first, each with the answer that comes in; the list ends in 0xffff.
unfoldable pub extend_loop : Machine → ℕ → Proxy → Message → List (ℕ × Received) → Outcome Proxy
unfolding extend_circuit
extend_loop e cct_id p answer [] = ok p
extend_loop e cct_id p answer ((next_hop, got) ∷ rounds) = do
  (p', answer') ← extend_circuit e cct_id p answer next_hop got
  extend_loop e cct_id p' answer' rounds

-- `myCctHops[var + 1]`, paired with the answers.
abbrev pub rounds_of : List ℕ → (ℕ → Received) → ℕ → List (ℕ × Received)
rounds_of [] got var = (last_hop_port_number, got var) ∷ []
rounds_of (r ∷ hops) got var = (r, got var) ∷ rounds_of hops got (var + 1)

unfoldable pub first_hop : List ℕ → Outcome ℕ
first_hop [] = fault out_of_bounds
first_hop (r ∷ hops) = ok r

unfoldable pub rounds_after_first : List ℕ → (ℕ → Received) → List (ℕ × Received)
rounds_after_first [] got = []
rounds_after_first (r ∷ hops) got = rounds_of hops got 0

-- `Build_An_Circuit`. `got var` is what is received in round `var`.
unfoldable pub build_an_circuit : Machine → ℕ → (ℕ → Received) → Proxy → Outcome Proxy
unfolding extend_loop first_hop rounds_after_first randomly_select_hops2
build_an_circuit e rand got p = do
  let hops = randomly_select_hops2 rand p.no_of_routers p.no_of_hops
  let p1 = log_hops p 0 hops
  let p2 = record p1 {
    my_cct_hops = hops ++ last_hop_port_number ∷ [];
    next_circuit = p.next_circuit + 1;
  }
  first ← first_hop hops
  sock ← set_this_router_as_sender p2.sock_parent first
  extend_loop e p.next_circuit (record p2 { sock_parent = sock })
      (record { msg = e.indeterminate; actual_length = 0 }) (rounds_after_first hops got)
