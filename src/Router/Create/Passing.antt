-- ===== src/Router/Create/Passing.antt =====
-- The answers to extension requests that a router of stage 5 passes on.
use torupload.Base.Outcome.{ok, >>=-ok}
use torupload.Message.{Message, htons}
use torupload.Router.Wrap.Bytes.{tor_bytes, IsTor, wire-IsTor}
use torupload.Base.{eq→==, ℕ, ◌≡◌, refl, ap, ◌∙◌, ◌∷◌, arith, [], ne→==}
use torupload.Router.Create.{forward_extend_done, circuit_message}
use torupload.Router.State.{Router, set_receiver, log_it, circuit_extend_done, circuit_extend}
use torupload.Trace.{pkt, udp_sent, forwarding_extend}
use torupload.Router.Handler.Stage6.{log_pkt_lem}
use torupload.Router.Relay6.Layers.{send_message_lem}

-- The router that has passed on an answer with these identifier bytes.
abbrev pub passed : Router → ℕ → ℕ → Router
passed r l h =
    let a = r.entry.circuit_requester_addr in
    let r1 = set_receiver r a in
    log_it
      (log_it (record r1 { trace = udp_sent a (tor_bytes circuit_extend_done l h []) ∷ r.trace })
        (pkt (htons r.sock_child.last_sender.sin_port) 3 (circuit_extend_done ∷ l ∷ h ∷ [])))
      (forwarding_extend r.entry.my_circuit_id r.entry.given_circuit_id (htons a.sin_port))

forward_extend_done_lem :
    (r : Router) {m : Message} {l h : ℕ}
    → IsTor m circuit_extend_done l h []
    → forward_extend_done r m ≡ ok (passed r l h, m)
unfolding forward_extend_done
forward_extend_done_lem r {m} {l} {h} t = rw (eq→== m.actual_length 23 t.len) (
    >>=-ok _ _
      (send_message_lem (set_receiver r r.entry.circuit_requester_addr) m (omega (arith, t.len))
        ∙ ap
            (λ bytes. ok (record (set_receiver r r.entry.circuit_requester_addr) {
              trace = udp_sent r.entry.circuit_requester_addr bytes ∷ r.trace;
            }))
            (wire-IsTor t))
      (>>=-ok _ _
        (log_pkt_lem
          (record (set_receiver r r.entry.circuit_requester_addr) {
            trace =
                udp_sent r.entry.circuit_requester_addr (tor_bytes circuit_extend_done l h [])
                ∷ r.trace;
          })
          [] t (omega (arith, t.len)))
        refl))

-- A CIRCUIT_EXTEND_DONE without payload at a router of stage 5 goes to the requester as it came:
-- its circuit identifier is not replaced, though the log line written after it names two
-- identifiers.
pub circuit_message-forward_extend_done :
    (r : Router) {m : Message} {l h : ℕ}
    → IsTor m circuit_extend_done l h []
    → circuit_message r m ≡ ok (passed r l h, m)
unfolding circuit_message
circuit_message-forward_extend_done r {m} t =
    rw
      (
        ne→== (m.msg 20) circuit_extend (λ e. absurd (omega (arith, e, t.command_byte))),
        eq→== (m.msg 20) circuit_extend_done t.command_byte,
      )
      (forward_extend_done_lem r t)
