-- ===== src/Router/Contract/Handle.antt =====
-- A whole round of `Handler`, from `select` to its end, keeps to the contract.
use torupload.Message.Laws.{place-below}
use torupload.Router.Wrap.{frame}
use torupload.Router.Create6.{cct_creation_6}
use torupload.Router.Relay.{relay_this_stuff}
use torupload.Socket.{receive_message, raw_receive_message}
use torupload.Router.Contract.Rounds.{
  Rounds, Rounds-if, Keeps, Keeps-Rounds, forward_extend-Keeps, log_pkt-keeps,
  relay_this_stuff-round, accept_extend-round, forward_extend_done-Keeps, relay_this_stuff6-Keeps,
  plain_packet-Keeps, Idle-else, Idle-stage6, Idle-stage5, forward_key-Keeps, relay_reply-Keeps,
  take_key-round, forward_secure_extend-Keeps, accept_secure_extend-round, return_extend_done-Keeps,
}
use torupload.Message.{Message, memcpy, Buffer, htons, max_message_length, slice}
use torupload.Base.Outcome.{
  Outcome, After, After-any, ◌>>=◌, guard, assertion, After->>=, After-eq, ok, out_of_bounds,
}
use torupload.Router.Handler.{
  stage5_message, dispatch, raw_plain, handle, stage6_message, raw_dispatch, raw_stage5, raw_stage6,
  udp_readable, raw_readable, Input, from_udp, from_raw,
}
use torupload.Socket.{SockAddr, UdpSocket}
use torupload.Router.State.{
  Router, send_message, enc_circuit_extend, relay_this_data_backwd, circuit_extend, proto_mini_tor,
  relay_this_data_fwd, enc_circuit_extend_done, circuit_extend_done, relay_data_bwd_enc,
  relay_data_fwd_enc,
}
use torupload.Machine.{Machine}
use torupload.Router.Create.{circuit_message, log_pkt}
use torupload.Base.{◌==◌, ◌≡◌, ap, ◌∙◌, subst, ◌||◌, arith, eq→==, refl, ℕ, ◌<◌, leb, ◌+◌, ◌&&◌}
use torupload.Router.State
use torupload.Router.Contract.{idle, view, Round, View}

memcpy-below :
    (f : Buffer) (o : ℕ) (g : Buffer) (p n i : ℕ)
    → i < o
    → After (λ copy. copy i ≡ f i) (memcpy f o g p n)
unfolding memcpy
memcpy-below f o g p n i before =
    After-any _
      (guard (leb (o + n) max_message_length && leb (p + n) max_message_length) out_of_bounds) _
      (λ _. place-below f o (slice g p n) i before)

-- A round that starts behind a step that changed nothing of the view.
Rounds-moved :
    (e : Machine) (from : SockAddr) (m : Message) (r r1 : Router) (x : Outcome (Router × Message))
    → view r1 ≡ view r
    → Rounds e from m r1 x
    → Rounds e from m r x
Rounds-moved e from m r r1 x same round =
    subst (λ v. After (λ p. Round e from m v (view p.0)) x) same round

module _ (e : Machine) (from : SockAddr) (m : Message) where
  logged-round :
      (r : Router) (f : Router → Outcome (Router × Message))
      → r.sock_child.last_sender ≡ from
      → ((r1 : Router)
          → view r1 ≡ view r
          → r1.sock_child.last_sender ≡ from
          → Rounds e from m r1 (f r1))
      → Rounds e from m r (log_pkt r m >>= f)
  logged-round r f sender rest =
      After->>= _ _ (log_pkt r m) f (log_pkt-keeps r m)
        (λ r1 (same, sock). Rounds-moved e from m r r1 (f r1) same (rest r1 same (sock ∙ sender)))

  circuit_message-round :
      (r : Router)
      → r.sock_child.last_sender ≡ from
      → r.stage ≡ 5
      → m.msg 9 ≡ proto_mini_tor
      → ¬ (m.msg 20 ≡ relay_this_data_fwd)
      → Rounds e from m r (circuit_message r m)
  unfolding circuit_message
  circuit_message-round r sender stage proto other =
      Rounds-if (Rounds e from m r) (m.msg 20 == circuit_extend) _ _
        (λ extend.
          let is : m.msg 20 ≡ circuit_extend = ground arith in
          Rounds-if (Rounds e from m r) r.to_forward _ _
            (λ later.
              Keeps-Rounds e from m r _
                (Idle-stage5 m (view r) stage (λ _. later) (λ command. absurd (other command.1)))
                (forward_extend-Keeps r m))
            (λ first. accept_extend-round e from r m sender stage first (proto, is)))
        (λ extend.
          let quiet =
            Idle-stage5 m (view r) stage (λ command. cc (extend, eq→== _ _ command.1))
              (λ command. absurd (other command.1)) in
          Rounds-if (Rounds e from m r) (m.msg 20 == circuit_extend_done) _ _
            (λ _. Keeps-Rounds e from m r _ quiet (forward_extend_done-Keeps r m))
            (λ _. idle quiet))

  stage5_message-round :
      (r : Router)
      → r.sock_child.last_sender ≡ from
      → r.stage ≡ 5
      → m.msg 9 ≡ proto_mini_tor
      → Rounds e from m r (stage5_message e r m)
  unfolding stage5_message
  stage5_message-round r sender stage proto =
      Rounds-if (Rounds e from m r)
        (m.msg 20 == relay_this_data_backwd || m.msg 20 == relay_this_data_fwd) _ _
        (λ _.
          logged-round r _ sender (λ r1 same _.
            relay_this_stuff-round e from r1 m (ap (λ v. v.stage) same ∙ stage) proto))
        (λ other.
          circuit_message-round r sender stage proto (λ is. absurd (ground (arith, other, is))))

  cct_creation_6-round :
      (r : Router)
      → r.sock_child.last_sender ≡ from
      → r.stage ≡ 6
      → Rounds e from m r (cct_creation_6 e r m)
  unfolding cct_creation_6
  cct_creation_6-round r sender stage =
      Rounds-if (Rounds e from m r) (m.msg 9 == proto_mini_tor) _ _
        (λ tor.
          let proto : m.msg 9 ≡ proto_mini_tor = ground arith in
          Rounds-if (Rounds e from m r) (m.msg 20 == State.fake_diffie_hellman) _ _
            (λ key.
              let is : m.msg 20 ≡ State.fake_diffie_hellman = ground arith in
              Rounds-if (Rounds e from m r) r.to_forward_fdh _ _
                (λ later.
                  Keeps-Rounds e from m r _
                    (Idle-stage6 m (view r) stage (λ _. later)
                      (λ command. absurd (omega (arith, command.1, is))))
                    (forward_key-Keeps e r m))
                (λ first. take_key-round e from r m sender stage first (proto, is)))
            (λ no_key.
              Rounds-if (Rounds e from m r) (m.msg 20 == enc_circuit_extend) _ _
                (λ extend.
                  let is : m.msg 20 ≡ enc_circuit_extend = ground arith in
                  Rounds-if (Rounds e from m r) r.to_forward_ece _ _
                    (λ later.
                      Keeps-Rounds e from m r _
                        (Idle-stage6 m (view r) stage
                          (λ command. absurd (omega (arith, command.1, is))) (λ _. later))
                        (forward_secure_extend-Keeps e r m))
                    (λ first. accept_secure_extend-round e from r m stage first (proto, is)))
                (λ no_extend.
                  let quiet =
                    Idle-stage6 m (view r) stage (λ command. cc (no_key, eq→== _ _ command.1))
                      (λ command. cc (no_extend, eq→== _ _ command.1)) in
                  Rounds-if (Rounds e from m r) (m.msg 20 == enc_circuit_extend_done) _ _
                    (λ _. Keeps-Rounds e from m r _ quiet (return_extend_done-Keeps e r m))
                    (λ _. idle quiet))))
        (λ _. tt)

  stage6_message-round :
      (r : Router)
      → r.sock_child.last_sender ≡ from
      → r.stage ≡ 6
      → Rounds e from m r (stage6_message e r m)
  unfolding stage6_message
  stage6_message-round r sender stage = logged-round r _ sender (λ r1 same sender1.
      let stage1 = ap (λ v. v.stage) same ∙ stage in
      Rounds-if (Rounds e from m r1)
        (m.msg 20 == State.fake_diffie_hellman
          || (m.msg 20 == enc_circuit_extend || m.msg 20 == enc_circuit_extend_done))
        _ _ (λ _. cct_creation_6-round r1 sender1 stage1)
        (λ other.
          Rounds-if (Rounds e from m r1)
            (m.msg 20 == relay_data_bwd_enc || m.msg 20 == relay_data_fwd_enc) _ _
            (λ _.
              Keeps-Rounds e from m r1 _
                (Idle-stage6 m (view r1) stage1 (λ command. absurd (ground (arith, other, command)))
                  (λ command. absurd (ground (arith, other, command))))
                (relay_this_stuff6-Keeps e r1 m))
            (λ _. tt)))

  dispatch-round :
      (r : Router) → r.sock_child.last_sender ≡ from → Rounds e from m r (dispatch e r m)
  unfolding dispatch
  dispatch-round r sender =
      Rounds-if (Rounds e from m r) (m.msg 9 == proto_mini_tor) _ _
        (λ tor.
          Rounds-if (Rounds e from m r) (r.stage == 5) _ _
            (λ five. stage5_message-round r sender (ground arith) (ground arith))
            (λ not5.
              Rounds-if (Rounds e from m r) (r.stage == 6) _ _
                (λ six. stage6_message-round r sender (ground arith))
                (λ not6. idle (
                  Idle-else m (view r) (λ _.
                    ((λ five. cc (not5, eq→== _ _ five)), (λ six. cc (not6, eq→== _ _ six))))))))
        (λ plain.
          Keeps-Rounds e from m r _ (Idle-else m (view r) (λ tor. cc (plain, eq→== _ _ tor)))
            (plain_packet-Keeps r m))

module _ (e : Machine) where
  raw_plain-Keeps : (r : Router) (m : Message) → Keeps r (raw_plain e r m)
  unfolding raw_plain send_message
  raw_plain-Keeps r m = ground arith

  raw_stage6-Keeps : (r : Router) (m : Message) → Keeps r (raw_stage6 e r m)
  unfolding raw_stage6 send_message
  raw_stage6-Keeps r m = ground arith

  raw_stage5-Keeps : (r : Router) (m : Message) → Keeps r (raw_stage5 e r m)
  unfolding raw_stage5
  raw_stage5-Keeps r m = After-any _ (guard (m.actual_length == 84) assertion) _ (λ _.
      After->>= _ _ (memcpy _ 23 m.msg 0 m.actual_length) _
        (memcpy-below
          (frame e.indeterminate relay_this_data_backwd (htons r.entry.given_circuit_id)) 23 m.msg 0
          m.actual_length 20 (omega arith))
        (λ g command.
          After->>= _ _ (relay_this_stuff e r _) _ (relay_reply-Keeps e r _ command)
            (λ p kept. kept)))

  raw_dispatch-Keeps : (r : Router) (m : Message) → Keeps r (raw_dispatch e r m)
  unfolding raw_dispatch
  raw_dispatch-Keeps r m =
      Rounds-if (Keeps r) (r.stage == 4 || r.stage == 3) _ _ (λ _. raw_plain-Keeps r m)
        (λ _.
          Rounds-if (Keeps r) (r.stage == 5) _ _ (λ _. raw_stage5-Keeps r m)
            (λ _. Rounds-if (Keeps r) (r.stage == 6) _ _ (λ _. raw_stage6-Keeps r m) (λ _. refl)))

  -- What a round of `Handler` has made of a router's circuit: with a datagram on the UDP socket it
  -- is the round that the message asks for, as `ReceiveMessage` has left it in the buffer, with
  -- whom the socket names as the last sender; a packet on the raw socket changes nothing.
  abbrev pub Explained : Router → Input → View → Type 0
  Explained r (from_udp got) w =
      (sock : UdpSocket) × (m : Message) × (receive_message r.sock_child r.r_message got
        ≡ ok (sock, m))
      × Round e sock.last_sender m (view r) w
  Explained r (from_raw got) w = w ≡ view r

  -- One round of `Handler` that ends without a fault, in whatever state it starts. A packet on the
  -- raw socket changes nothing of the router's stage, number, addresses, circuit entry and flags. A
  -- datagram on the UDP socket, or a failed receive, leaves a message and a last sender of the
  -- socket; by the message's protocol and command one of five things happens to them. In stage 5 a
  -- CIRCUIT_EXTEND, if the flag of the first one is not set, sets this flag and makes the sender
  -- the requester, the message's identifier the given one, the router's own identifier of it, and
  -- the message's port that of the next hop. In stage 5 a forward data message at a router that is
  -- not the last hop sets the previous hop's address to the packet's source. In stage 6 a key
  -- message, if its flag is not set, sets it and makes the sender the requester, the message's
  -- identifier the given one, and the key that of the message's 16 bytes. In stage 6 an
  -- ENC_CIRCUIT_EXTEND, if its flag is not set, sets it, the router's own identifier, and the next
  -- port to the one that the router's key, which is there, gives of the decrypted payload. Or
  -- nothing changes; then none of these is the case: the command is another one, or the flag was
  -- set, or the forward message is at the last hop.
  pub handle-Round : (r : Router) (i : Input) → After (λ r1. Explained r i (view r1)) (handle e r i)
  unfolding handle udp_readable raw_readable
  handle-Round r (from_udp got) =
      After-eq _ (receive_message r.sock_child r.r_message got) _ (λ (sock, m) has.
        After->>= _ _ (dispatch e _ m) _ (dispatch-round e sock.last_sender m _ refl)
          (λ p round. (sock, m, has, round)))
  handle-Round r (from_raw got) =
      After-any _ (raw_receive_message r.r_message got) _
        (λ m. After->>= _ _ (raw_dispatch e _ m) _ (raw_dispatch-Keeps _ m) (λ p kept. kept))
