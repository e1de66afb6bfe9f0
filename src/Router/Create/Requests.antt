-- ===== src/Router/Create/Requests.antt =====
-- What a router of stage 5 does with a request to extend the circuit.
use torupload.Router.Handler.Stage6.{log_pkt_lem}
use torupload.Router.Relay6.Layers.{send_message_lem, store_id-IsTor}
use torupload.Trace.{udp_sent, pkt, new_extend}
use torupload.Circuit.{newest}
use torupload.Base.Outcome.{ok, >>=-ok}
use torupload.Router.Wrap.Bytes.{IsTor, tor_bytes, wire-IsTor}
use torupload.Base.{
  get_or, ℕ, ◌+◌, ◌*◌, ◌/◌, ◌%◌, ◌≤◌, ◌≡◌, refl, ap, ◌∙◌, true, false, some, List, [], ◌∷◌, arith,
  ap₂, if◌then◌else◌, eq→==,
}
use torupload.Router.Create.{accept_extend, forward_extend, circuit_message, entry_of_request}
use torupload.Router.Contract.{view, after_request}
use torupload.Router.State.{
  Router, circuit_extend, circuit_extend_done, send_message, set_receiver, log_it,
}
use torupload.Message.{Message, store8, htons}

-- The answer to a request.
abbrev answer : Message → Message
answer m = record { msg = store8 m.msg 20 circuit_extend_done; actual_length = 23 }

answer-IsTor :
    {m : Message} {c l h : ℕ} {xs : List ℕ}
    → IsTor m c l h xs
    → IsTor (answer m) circuit_extend_done l h []
answer-IsTor t = record {
  head = t.head;
  command_byte = refl;
  low_byte = t.low_byte;
  high_byte = t.high_byte;
  body = refl;
  len = refl;
}

-- A message of this form is sent.
sends :
    (r : Router) {m : Message} {c l h : ℕ} {xs : List ℕ}
    → IsTor m c l h xs
    → m.actual_length ≤ 500
    → send_message r m
      ≡ ok (record r {
        trace = udp_sent r.sock_child.send_to_address (tor_bytes c l h xs) ∷ r.trace;
      })
sends r {m} t room =
    send_message_lem r m room
    ∙ ap (λ bytes. ok (record r { trace = udp_sent r.sock_child.send_to_address bytes ∷ r.trace }))
        (wire-IsTor t)

accept_extend_lem :
    (r : Router) (m : Message) (c l h p1 p2 : ℕ)
    → IsTor m c l h (p1 ∷ p2 ∷ [])
    → m.actual_length ≤ 500
    → (r1 : Router) × (m1 : Message) × (accept_extend r m ≡ ok (r1, m1))
      × (newest r1.trace
          ≡ some (udp_sent r.sock_child.last_sender (tor_bytes circuit_extend_done l h [])))
      × (view r1
          ≡ after_request (view r) r.sock_child.last_sender (htons (l + 256 * h)) (p1 + 256 * p2))
unfolding accept_extend
accept_extend_lem r m c l h p1 p2 t room =
    let start : Router = record r { entry = entry_of_request r m } in
    let dump = pkt (htons r.sock_child.last_sender.sin_port) 5 (c ∷ l ∷ h ∷ p1 ∷ p2 ∷ []) in
    let line =
      new_extend start.entry.given_circuit_id start.entry.my_circuit_id
        (htons r.sock_child.last_sender.sin_port) in
    let ready : Router =
      set_receiver (record (log_it (log_it start dump) line) { to_forward = true })
        r.sock_child.last_sender in
    (
      record ready {
        trace =
            udp_sent r.sock_child.last_sender (tor_bytes circuit_extend_done l h []) ∷ ready.trace;
      },
      answer m,
      >>=-ok _ _ (log_pkt_lem start (p1 ∷ p2 ∷ []) t room)
          (>>=-ok _ (λ r5. ok (r5, answer m)) (sends ready (answer-IsTor t) (omega arith)) refl),
      refl,
      ap₂ (λ given port. after_request (view r) r.sock_child.last_sender (htons given) port)
          (ap₂ (λ a b. a + 256 * b) t.low_byte t.high_byte)
          (ap₂ (λ a b. a + 256 * b) (ap (λ ys. get_or ys 0 0) t.body)
            (ap (λ ys. get_or ys 1 0) t.body)),
    )

forward_extend_lem :
    (r : Router) (m : Message) (c l h : ℕ) (xs : List ℕ)
    → IsTor m c l h xs
    → m.actual_length ≤ 500
    → (r1 : Router) × (m1 : Message) × (forward_extend r m ≡ ok (r1, m1))
      × (newest r1.trace
          ≡ some (
              udp_sent r.entry.next_hop_rtr_for_circuit (
                tor_bytes c
                  (htons r.entry.my_circuit_id % 256)
                  (htons r.entry.my_circuit_id / 256 % 256)
                  xs)))
      × (view r1 ≡ view r)
unfolding forward_extend
forward_extend_lem r m c l h xs t room =
    let t1 = store_id-IsTor (htons r.entry.my_circuit_id) t in
    (_, _, >>=-ok _ _ (sends _ t1 room) (>>=-ok _ _ (log_pkt_lem _ xs t1 room) refl), refl, refl)

-- The first request at a router.
pub circuit_message-accept_extend :
    (r : Router) (m : Message) (l h p1 p2 : ℕ)
    → r.to_forward ≡ false
    → IsTor m circuit_extend l h (p1 ∷ p2 ∷ [])
    → m.actual_length ≤ 500
    → (r1 : Router) × (m1 : Message) × (circuit_message r m ≡ ok (r1, m1))
      × (newest r1.trace
          ≡ some (udp_sent r.sock_child.last_sender (tor_bytes circuit_extend_done l h [])))
      × (view r1
          ≡ after_request (view r) r.sock_child.last_sender (htons (l + 256 * h)) (p1 + 256 * p2))
unfolding circuit_message
circuit_message-accept_extend r m l h p1 p2 first t room =
    let (r1, m1, run, out, seen) = accept_extend_lem r m circuit_extend l h p1 p2 t room in
    (
      r1,
      m1,
      rw (eq→== (m.msg 20) circuit_extend t.command_byte)
          (ap (λ b. if b then forward_extend r m else accept_extend r m) first ∙ run),
      out,
      seen,
    )

-- A later one.
pub circuit_message-forward_extend :
    (r : Router) (m : Message) (l h : ℕ) (xs : List ℕ)
    → r.to_forward ≡ true
    → IsTor m circuit_extend l h xs
    → m.actual_length ≤ 500
    → (r1 : Router) × (m1 : Message) × (circuit_message r m ≡ ok (r1, m1))
      × (newest r1.trace
          ≡ some (
              udp_sent r.entry.next_hop_rtr_for_circuit (
                tor_bytes circuit_extend
                  (htons r.entry.my_circuit_id % 256)
                  (htons r.entry.my_circuit_id / 256 % 256)
                  xs)))
      × (view r1 ≡ view r)
unfolding circuit_message
circuit_message-forward_extend r m l h xs later t room =
    let (r1, m1, run, out, seen) = forward_extend_lem r m circuit_extend l h xs t room in
    (
      r1,
      m1,
      rw (eq→== (m.msg 20) circuit_extend t.command_byte)
          (ap (λ b. if b then forward_extend r m else accept_extend r m) later ∙ run),
      out,
      seen,
    )
