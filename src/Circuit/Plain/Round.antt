-- ===== src/Circuit/Plain/Round.antt =====
-- One round of `Build_An_Circuit`, stage 5: what the proxy sends, whatever answers it.
use torupload.Socket.Receive.{receive_message-total}
use torupload.Base.Outcome.{ok, >>=-ok}
use torupload.Socket.{UdpSocket, SockAddr, address_of_router, Received}
use torupload.Machine.{Machine}
use torupload.Proxy.Build.{extend_circuit, create_extend_cct_message, log_done}
use torupload.Proxy.State.{Proxy}
use torupload.Router.Wrap.{frame, hex_dump}
use torupload.Router.State.{circuit_extend, send_message, circuit_extend_done}
use torupload.Trace.{Event, logged, udp_sent, raw_sent, tun_written}
use torupload.Message.{Buffer, wire, store16, Message, slice}
use torupload.Router.Wrap.Bytes.{tor_bytes}
use torupload.Base.{
  ℕ, ◌/◌, ◌%◌, ◌≡◌, List, [], ◌∷◌, ne→==, refl, ◌∙◌, ◌≢◌, ◌==◌, if◌then◌else◌, ◌-◌, Bool, true,
  false, ◌&&◌,
}

-- What went out, without the lines of the log.
abbrev pub sent_events : List Event → List Event
sent_events [] = []
sent_events (logged l ∷ events) = sent_events events
sent_events (udp_sent a bytes ∷ events) = udp_sent a bytes ∷ sent_events events
sent_events (raw_sent a bytes ∷ events) = raw_sent a bytes ∷ sent_events events
sent_events (tun_written bytes ∷ events) = tun_written bytes ∷ sent_events events

-- A request, with the circuit's identifier in host order and the port as it lies in memory.
abbrev pub request_bytes : ℕ → ℕ → List ℕ
request_bytes id port =
    tor_bytes circuit_extend (id % 256) (id / 256 % 256) (port % 256 ∷ port / 256 % 256 ∷ [])

request_wire :
    (f : Buffer) (id port : ℕ)
    → wire (record { msg = store16 (frame f circuit_extend id) 23 port; actual_length = 25 })
      ≡ request_bytes id port
request_wire f id port = refl

-- What the proxy keeps from round to round.
pub record SamePlan (p p' : Proxy) : Type 0 where
  pub stage : p'.stage ≡ p.stage
  pub hops : p'.my_cct_hops ≡ p.my_cct_hops
  pub circuit : p'.next_circuit ≡ p.next_circuit
  pub senders : p'.sock_parent.who_have_send_me ≡ p.sock_parent.who_have_send_me
  pub receiver : p'.sock_parent.send_to_address ≡ p.sock_parent.send_to_address

pub SamePlan-trans : {p q r : Proxy} → SamePlan p q → SamePlan q r → SamePlan p r
SamePlan-trans a b = record {
  stage = b.stage ∙ a.stage;
  hops = b.hops ∙ a.hops;
  circuit = b.circuit ∙ a.circuit;
  senders = b.senders ∙ a.senders;
  receiver = b.receiver ∙ a.receiver;
}

-- The port that goes into a request: that of the next router, or the end mark.
pub create_extend_cct_message-end :
    (e : Machine) (s : UdpSocket) (id : ℕ)
    → create_extend_cct_message e s id 0xffff
      ≡ ok (store16 (frame e.indeterminate circuit_extend id) 23 0xffff)
unfolding create_extend_cct_message
create_extend_cct_message-end e s id = refl

pub create_extend_cct_message-router :
    (e : Machine) (s : UdpSocket) (id r : ℕ) (a : SockAddr)
    → r ≢ 0xffff
    → address_of_router s r ≡ ok a
    → create_extend_cct_message e s id r
      ≡ ok (store16 (frame e.indeterminate circuit_extend id) 23 a.sin_port)
unfolding create_extend_cct_message
create_extend_cct_message-router e s id r a inside known = rw (ne→== r 0xffff inside, known) refl

-- With the request that is made, the round sends it to the first router and ends without a fault,
-- whatever is received, or nothing.
pub extend_circuit_lem :
    (e : Machine) (id : ℕ) (p : Proxy) (answer : Message) (next_hop port : ℕ) (got : Received)
    → create_extend_cct_message e p.sock_parent id next_hop
      ≡ ok (store16 (frame e.indeterminate circuit_extend id) 23 port)
    → (p' : Proxy) × (answer' : Message) × (extend_circuit e id p answer next_hop got
        ≡ ok (p', answer'))
      × (sent_events p'.trace
          ≡ udp_sent p.sock_parent.send_to_address (request_bytes id port) ∷ sent_events p.trace)
      × SamePlan p p'
unfolding extend_circuit send_message hex_dump
extend_circuit_lem e id p answer next_hop port got made =
    let f = store16 (frame e.indeterminate circuit_extend id) 23 port in
    let sent : Message = record { msg = f; actual_length = 25 } in
    let (last, answer', received) = receive_message-total p.sock_parent answer got in
    let p2 = record p {
      sock_parent = record p.sock_parent { last_sender = last };
      trace = udp_sent p.sock_parent.send_to_address (wire sent) ∷ p.trace;
    } in
    let done = answer'.msg 20 == circuit_extend_done && answer'.actual_length == 23 in
    let bytes = f 20 ∷ slice f 21 (25 - 21) in
    (
      (if done then log_done p2 sent answer' bytes else p2),
      answer',
      >>=-ok _ _ made (>>=-ok _ _ received refl),
      quiet p2 sent answer' bytes done,
      SamePlan-trans
          (record { stage = refl; hops = refl; circuit = refl; senders = refl; receiver = refl })
          (logs p2 sent answer' bytes done),
    )
  where
    quiet :
        (q : Proxy) (sent answer' : Message) (bytes : List ℕ) (done : Bool)
        → sent_events (if done then log_done q sent answer' bytes else q).trace
          ≡ sent_events q.trace
    quiet q sent answer' bytes true = refl
    quiet q sent answer' bytes false = refl

    logs :
        (q : Proxy) (sent answer' : Message) (bytes : List ℕ) (done : Bool)
        → SamePlan q (if done then log_done q sent answer' bytes else q)
    logs q sent answer' bytes true = record {
      stage = refl;
      hops = refl;
      circuit = refl;
      senders = refl;
      receiver = refl;
    }
    logs q sent answer' bytes false = record {
      stage = refl;
      hops = refl;
      circuit = refl;
      senders = refl;
      receiver = refl;
    }
