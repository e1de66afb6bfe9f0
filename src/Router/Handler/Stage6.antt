-- ===== src/Router/Handler/Stage6.antt =====
-- A datagram of stage 6, from `recvfrom` to the function that deals with it.
use torupload.Socket.Receive.{receive_message_lem}
use torupload.Router.Wrap.{hex_dump}
use torupload.Base.{
  length, ℕ, ◌+◌, ◌≤◌, ◌≡◌, ◌⊎◌, List, ◌∷◌, arith, subst, le→leb, suc, ◌-◌, refl, ap₂, ◌∙◌, inl,
  inr, ap,
}
use torupload.Base.Outcome.{ok, >>=-ok, ◌>>=◌}
use torupload.Message.{Message, place, htons, slice}
use torupload.Machine.{Machine}
use torupload.Socket.{SockAddr, arrived}
use torupload.Trace.{pkt, logged}
use torupload.Router.Create6.{cct_creation_6}
use torupload.Router.State.{
  fake_diffie_hellman, enc_circuit_extend, enc_circuit_extend_done, Router, log_it,
  relay_data_fwd_enc, relay_data_bwd_enc,
}
use torupload.Router.Wrap.Bytes.{tor_bytes, IsTor, received-IsTor, IsTor-protocol}
use torupload.Router.Create.{log_pkt}
use torupload.Router.Relay6.{relay_this_stuff6}
use torupload.Router.Handler.{handle, from_udp, stage6_message, dispatch, udp_readable}

-- The message that the router holds once these bytes have come in.
abbrev pub arrival : Router → List ℕ → Message
arrival r bytes = record { msg = place r.r_message.msg 0 bytes; actual_length = length bytes }

-- The router with that message, its sender noted, and the log line written.
abbrev pub noticed : Router → SockAddr → ℕ → ℕ → ℕ → List ℕ → Router
noticed r from c l h xs = record r {
  sock_child = record r.sock_child { last_sender = from };
  r_message = arrival r (tor_bytes c l h xs);
  trace = logged (pkt (htons from.sin_port) (3 + length xs) (c ∷ l ∷ h ∷ xs)) ∷ r.trace;
}

pub arrival-IsTor :
    (r : Router) (c l h : ℕ) (xs : List ℕ) → IsTor (arrival r (tor_bytes c l h xs)) c l h xs
arrival-IsTor r c l h xs =
    subst
      (λ n.
        IsTor (record { msg = place r.r_message.msg 0 (tor_bytes c l h xs); actual_length = n }) c l
          h xs)
      (omega arith) (received-IsTor r.r_message.msg c l h xs)

-- The command, the identifier and the payload are what the hexadecimal dump shows.
pub hex_dump-IsTor :
    {m : Message} {c l h : ℕ} (xs : List ℕ)
    → IsTor m c l h xs
    → m.actual_length ≤ 500
    → hex_dump m ≡ ok (c ∷ l ∷ h ∷ xs)
unfolding hex_dump
hex_dump-IsTor {m} xs t room =
    rw (le→leb 20 m.actual_length (omega (arith, t.len)), le→leb m.actual_length 500 room)
      (ap₂ (λ a b. ok (a ∷ b)) t.command_byte
        (ap (slice m.msg 21) rest
          ∙ ap₂ (λ a b. a ∷ b) t.low_byte (ap₂ (λ a b. a ∷ b) t.high_byte t.body)))
  where
    rest : m.actual_length - 21 ≡ suc (suc (length xs))
    rest = omega (arith, t.len)

pub log_pkt_lem :
    (r : Router) {m : Message} {c l h : ℕ} (xs : List ℕ)
    → IsTor m c l h xs
    → m.actual_length ≤ 500
    → log_pkt r m
      ≡ ok (
          log_it r (pkt (htons r.sock_child.last_sender.sin_port) (3 + length xs) (c ∷ l ∷ h ∷ xs)))
unfolding log_pkt
log_pkt_lem r {m} {c} {l} {h} xs t room =
    ap
      (λ x. x >>= λ bytes.
        ok (log_it r (pkt (htons r.sock_child.last_sender.sin_port) (m.actual_length - 20) bytes)))
      (hex_dump-IsTor xs t room)
    ∙ ap (λ n. ok (log_it r (pkt (htons r.sock_child.last_sender.sin_port) n (c ∷ l ∷ h ∷ xs))))
        (omega (arith, t.len))

module _ (e : Machine) where
  pub stage6_message-relay :
      (r : Router) {m : Message} {c l h : ℕ} (xs : List ℕ)
      → IsTor m c l h xs
      → m.actual_length ≤ 500
      → (c ≡ relay_data_fwd_enc) ⊎ (c ≡ relay_data_bwd_enc)
      → stage6_message e r m
        ≡ relay_this_stuff6 e
            (log_it r
              (pkt (htons r.sock_child.last_sender.sin_port) (3 + length xs) (c ∷ l ∷ h ∷ xs)))
            m
  unfolding stage6_message
  stage6_message-relay r xs t room (inl fwd) =
      >>=-ok _ _ (log_pkt_lem r xs t room) (rw (t.command_byte, fwd))
  stage6_message-relay r xs t room (inr bwd) =
      >>=-ok _ _ (log_pkt_lem r xs t room) (rw (t.command_byte, bwd))

  stage6_message-creation :
      (r : Router) {m : Message} {c l h : ℕ} (xs : List ℕ)
      → IsTor m c l h xs
      → m.actual_length ≤ 500
      → (c ≡ fake_diffie_hellman) ⊎ ((c ≡ enc_circuit_extend) ⊎ (c ≡ enc_circuit_extend_done))
      → stage6_message e r m
        ≡ cct_creation_6 e
            (log_it r
              (pkt (htons r.sock_child.last_sender.sin_port) (3 + length xs) (c ∷ l ∷ h ∷ xs)))
            m
  unfolding stage6_message
  stage6_message-creation r xs t room (inl key) =
      >>=-ok _ _ (log_pkt_lem r xs t room) (rw (t.command_byte, key))
  stage6_message-creation r xs t room (inr (inl extend)) =
      >>=-ok _ _ (log_pkt_lem r xs t room) (rw (t.command_byte, extend))
  stage6_message-creation r xs t room (inr (inr done)) =
      >>=-ok _ _ (log_pkt_lem r xs t room) (rw (t.command_byte, done))

  pub dispatch-stage6 :
      (r : Router) (m : Message)
      → r.stage ≡ 6
      → m.msg 9 ≡ 253
      → dispatch e r m ≡ stage6_message e r m
  unfolding dispatch
  dispatch-stage6 r m stage protocol = rw (stage, protocol)

  -- A data message reaches `RelayThisStuff6`, once its arrival is logged.
  pub handle-relay :
      (r : Router) (from : SockAddr) (c l h : ℕ) (xs : List ℕ) {r' : Router} {m' : Message}
      → r.stage ≡ 6
      → 23 + length xs ≤ 500
      → (c ≡ relay_data_fwd_enc) ⊎ (c ≡ relay_data_bwd_enc)
      → relay_this_stuff6 e (noticed r from c l h xs) (arrival r (tor_bytes c l h xs)) ≡ ok (r', m')
      → handle e r (from_udp (arrived from (tor_bytes c l h xs)))
        ≡ ok (record r' { r_message = m' })
  unfolding handle udp_readable
  handle-relay r from c l h xs stage room command relayed =
      >>=-ok _ _
        (receive_message_lem r.sock_child r.r_message from (tor_bytes c l h xs) (omega arith))
        (>>=-ok _ _
          (dispatch-stage6 _ m stage (IsTor-protocol t)
            ∙ stage6_message-relay _ xs t (omega arith) command
            ∙ relayed)
          refl)
    where
      m : Message
      m = arrival r (tor_bytes c l h xs)

      t : IsTor m c l h xs
      t = arrival-IsTor r c l h xs

  -- A message about the circuit reaches `CCtCreation_6`, once its arrival is logged.
  pub handle-creation :
      (r : Router) (from : SockAddr) (c l h : ℕ) (xs : List ℕ) {r' : Router} {m' : Message}
      → r.stage ≡ 6
      → 23 + length xs ≤ 500
      → (c ≡ fake_diffie_hellman) ⊎ ((c ≡ enc_circuit_extend) ⊎ (c ≡ enc_circuit_extend_done))
      → cct_creation_6 e (noticed r from c l h xs) (arrival r (tor_bytes c l h xs)) ≡ ok (r', m')
      → handle e r (from_udp (arrived from (tor_bytes c l h xs)))
        ≡ ok (record r' { r_message = m' })
  unfolding handle udp_readable
  handle-creation r from c l h xs stage room command created =
      >>=-ok _ _
        (receive_message_lem r.sock_child r.r_message from (tor_bytes c l h xs) (omega arith))
        (>>=-ok _ _
          (dispatch-stage6 _ m stage (IsTor-protocol t)
            ∙ stage6_message-creation _ xs t (omega arith) command
            ∙ created)
          refl)
    where
      m : Message
      m = arrival r (tor_bytes c l h xs)

      t : IsTor m c l h xs
      t = arrival-IsTor r c l h xs
