-- ===== src/Circuit/Plain/Reply.antt =====
-- A packet that comes in from outside at the last router of a circuit of stage 5.
use torupload.Router.Wrap.{frame}
use torupload.Socket.Receive.{receive_message_lem, raw_receive_message_lem}
use torupload.Router.Handler.Stage6.{log_pkt_lem, arrival-IsTor, arrival}
use torupload.Router.Handler.Stage5.{reached}
use torupload.Router.Handler.{
  dispatch, handle, stage5_message, udp_readable, from_udp, raw_readable, raw_dispatch, raw_stage5,
  from_raw,
}
use torupload.Socket.{SockAddr, arrived}
use torupload.Router.Relay6.Layers.{send_message_lem}
use native.Mathlib.Decide.{ℕ_discrete}
use torupload.Trace.{udp_sent, LogLine, relay_reply, logged, pkt}
use torupload.Circuit.{newest, newest_of}
use torupload.Base.Outcome.{ok, >>=-ok, ◌>>=◌}
use torupload.Router.Relay.{relay_this_stuff, relay_to_previous_hop, relay_to_proxy}
use torupload.Circuit.Plain.Relay.{body-byte}
use torupload.Message.Laws.{length-slice, slice_ext, slice-place, memcpy_lem}
use torupload.Router.Wrap.Bytes.{
  IsTor, tor_bytes, wire-IsTor, IsTor-protocol, attached, attached-IsTor,
}
use torupload.Router.Packet.{put_header_checksum}
use torupload.Router.State.{Router, relay_this_data_backwd, set_receiver, log_it}
use torupload.Circuit.Plain.Back.{readdressed, readdressed-shifted}
use torupload.Message.{Buffer, Message, slice, store16, store32, htons, wire, load32, place}
use torupload.Machine.{Machine}
use torupload.Base.{
  ℕ, ◌+◌, ◌/◌, ◌%◌, ◌≡◌, refl, ap, ◌∙◌, length, get_or, List, ◌∷◌, arith, some, eq→==, ne→==, ◌≤◌,
  subst,
}

module _ (e : Machine) where
  -- The two messages that a router passes back.
  abbrev to_router : Router → Message → Message
  to_router r m = record m {
    msg =
        put_header_checksum
          (store32 (store16 m.msg 21 (htons r.entry.given_circuit_id)) 39 r.entry.prev_hop_real_ip)
          23;
  }

  abbrev to_proxy : Message → Message
  to_proxy m = record m { msg = put_header_checksum (store32 m.msg 39 (e.nic 0)) 23 }

  to_router-IsTor :
      (r : Router) {m : Message} {l h : ℕ} {xs : List ℕ}
      → IsTor m relay_this_data_backwd l h xs
      → length xs ≡ 84
      → IsTor
          (to_router r m)
          relay_this_data_backwd
          (htons r.entry.given_circuit_id % 256)
          (htons r.entry.given_circuit_id / 256 % 256)
          (readdressed r.entry.prev_hop_real_ip xs)
  to_router-IsTor r {m} {xs = xs} t size = record {
    head = t.head;
    command_byte = t.command_byte;
    low_byte = refl;
    high_byte = refl;
    body =
        ap (slice (to_router r m).msg 23) (length-slice packet 0 84)
        ∙ slice_ext (to_router r m).msg packet 23 0 84 (λ i lt.
          readdressed-shifted f g r.entry.prev_hop_real_ip
            (λ j below.
              kept j (body-byte j t (omega (arith, size)) ∙ ap g {x = j} {y = 0 + j} (omega arith)))
            i lt);
    len = omega (arith, t.len, size, length-slice packet 0 84);
  }
    where
      f : Buffer
      f = store16 m.msg 21 (htons r.entry.given_circuit_id)

      g : Buffer
      g j = get_or xs j 0

      packet : Buffer
      packet = put_header_checksum (store32 g 16 r.entry.prev_hop_real_ip) 0

      kept : (j : ℕ) → m.msg (23 + j) ≡ g (0 + j) → f (23 + j) ≡ g (0 + j)
      kept j same = ground arith

  to_proxy-IsTor :
      {m : Message} {l h : ℕ} {xs : List ℕ}
      → IsTor m relay_this_data_backwd l h xs
      → length xs ≡ 84
      → IsTor (to_proxy m) relay_this_data_backwd l h (readdressed (e.nic 0) xs)
  to_proxy-IsTor {m} {xs = xs} t size = record {
    head = t.head;
    command_byte = t.command_byte;
    low_byte = t.low_byte;
    high_byte = t.high_byte;
    body =
        ap (slice (to_proxy m).msg 23) (length-slice packet 0 84)
        ∙ slice_ext (to_proxy m).msg packet 23 0 84 (λ i lt.
          readdressed-shifted m.msg g (e.nic 0)
            (λ j below.
              body-byte j t (omega (arith, size)) ∙ ap g {x = j} {y = 0 + j} (omega arith))
            i lt);
    len = omega (arith, t.len, size, length-slice packet 0 84);
  }
    where
      g : Buffer
      g j = get_or xs j 0

      packet : Buffer
      packet = put_header_checksum (store32 g 16 (e.nic 0)) 0

  abbrev after_reply : Router → LogLine → Message → Router
  after_reply r line m = record (set_receiver (log_it r line) r.entry.circuit_requester_addr) {
    trace = udp_sent r.entry.circuit_requester_addr (wire m) ∷ logged line ∷ r.trace;
  }

  abbrev reply_line : Router → Message → ℕ → LogLine
  reply_line r m ip =
      relay_reply r.entry.my_circuit_id r.entry.given_circuit_id (load32 m.msg 35) (load32 m.msg 39)
        ip

  -- What the router does with a reply: whoever asked for the circuit gets it, with the address
  -- `ip` as its destination, which is the proxy's if that is who asked.
  returned :
      (r : Router) {m : Message} {l h : ℕ} (xs : List ℕ)
      → IsTor m relay_this_data_backwd l h xs
      → length xs ≡ 84
      → (r' : Router) × (m' : Message) × (l' h' ip : ℕ) × (relay_this_stuff e r m ≡ ok (r', m'))
        × (newest r'.trace
            ≡ some (
                udp_sent r.entry.circuit_requester_addr
                  (tor_bytes relay_this_data_backwd l' h' (readdressed ip xs))))
        × (r.entry.circuit_requester_addr.sin_port ≡ htons r.port_no_of_proxy → ip ≡ e.nic 0)
  unfolding relay_this_stuff relay_to_previous_hop relay_to_proxy
  returned r {m} {l} {h} xs t size =
      elim (ℕ_discrete r.entry.circuit_requester_addr.sin_port (htons r.port_no_of_proxy)) [
        | yes own ↦ (
          after_reply r (reply_line r m (e.nic 0)) (to_proxy m),
          to_proxy m,
          l,
          h,
          e.nic 0,
          rw
              (
                t.command_byte,
                eq→== m.actual_length 107 (omega (arith, t.len, size)),
                eq→== r.entry.circuit_requester_addr.sin_port (htons r.port_no_of_proxy) own,
              )
              (>>=-ok _ _ (send_message_lem _ (to_proxy m) (omega (arith, t.len, size))) refl),
          ap (λ bytes. some (udp_sent r.entry.circuit_requester_addr bytes))
              (wire-IsTor (to_proxy-IsTor t size)),
          (λ same. refl),
        )
        | no other ↦ (
          after_reply r (reply_line r m r.entry.prev_hop_real_ip) (to_router r m),
          to_router r m,
          htons r.entry.given_circuit_id % 256,
          htons r.entry.given_circuit_id / 256 % 256,
          r.entry.prev_hop_real_ip,
          rw
              (
                t.command_byte,
                eq→== m.actual_length 107 (omega (arith, t.len, size)),
                ne→== r.entry.circuit_requester_addr.sin_port (htons r.port_no_of_proxy) other,
              )
              (>>=-ok _ _ (send_message_lem _ (to_router r m) (omega (arith, t.len, size))) refl),
          ap (λ bytes. some (udp_sent r.entry.circuit_requester_addr bytes))
              (wire-IsTor (to_router-IsTor r t size)),
          (λ same. absurd (other same)),
        )
      ]

  dispatch-reply5 :
      (r : Router) {m : Message} {l h : ℕ} (xs : List ℕ)
      → r.stage ≡ 5
      → IsTor m relay_this_data_backwd l h xs
      → m.actual_length ≤ 500
      → dispatch e r m
        ≡ relay_this_stuff e
            (log_it r (
              pkt
                (htons r.sock_child.last_sender.sin_port)
                (3 + length xs)
                (relay_this_data_backwd ∷ l ∷ h ∷ xs)))
            m
  unfolding dispatch stage5_message
  dispatch-reply5 r {m} xs stage t room =
      rw
        (
          eq→== r.stage 5 stage,
          eq→== (m.msg 9) 253 (IsTor-protocol t),
          eq→== (m.msg 20) 0x54 t.command_byte,
        )
        (>>=-ok _ _ (log_pkt_lem r xs t room) refl)

  abbrev heard_reply : Router → SockAddr → ℕ → ℕ → List ℕ → Router
  heard_reply r from l h xs =
      log_it (reached r from (tor_bytes relay_this_data_backwd l h xs))
        (pkt (htons from.sin_port) (3 + length xs) (relay_this_data_backwd ∷ l ∷ h ∷ xs))

  -- A reply that reaches a router of stage 5 goes to its requester.
  pub handle-reply5 :
      (r : Router) (from : SockAddr) (l h : ℕ) (xs : List ℕ)
      → r.stage ≡ 5
      → length xs ≡ 84
      → (l' h' ip : ℕ) × (newest_of
            (handle e r (from_udp (arrived from (tor_bytes relay_this_data_backwd l h xs))))
          ≡ some (
              udp_sent r.entry.circuit_requester_addr
                (tor_bytes relay_this_data_backwd l' h' (readdressed ip xs))))
        × (r.entry.circuit_requester_addr.sin_port ≡ htons r.port_no_of_proxy → ip ≡ e.nic 0)
  unfolding handle udp_readable
  handle-reply5 r from l h xs stage size =
      let bytes = tor_bytes relay_this_data_backwd l h xs in
      let t = arrival-IsTor r relay_this_data_backwd l h xs in
      let (r', m', l', h', ip, runs, out, last) = returned (heard_reply r from l h xs) xs t size in
      (
        l',
        h',
        ip,
        ap newest_of (
              >>=-ok _ _ (receive_message_lem r.sock_child r.r_message from bytes (omega arith)) (
                >>=-ok _ _ (dispatch-reply5 (reached r from bytes) xs stage t (omega arith) ∙ runs)
                  refl))
            ∙ out,
        last,
      )

  raw_dispatch-stage5 :
      (r : Router) (m : Message) → r.stage ≡ 5 → raw_dispatch e r m ≡ raw_stage5 e r m
  unfolding raw_dispatch
  raw_dispatch-stage5 r m stage = rw stage

  raw_stage5_lem :
      (r : Router) (m : Message)
      → m.actual_length ≡ 84
      → raw_stage5 e r m ≡ (
          relay_this_stuff e r (
            attached
              (frame e.indeterminate relay_this_data_backwd (htons r.entry.given_circuit_id))
              m)
          >>= λ out. ok (out.0, m))
  unfolding raw_stage5
  raw_stage5_lem r m size = rw (eq→== m.actual_length 84 size) (
      >>=-ok _ _
        (memcpy_lem (frame e.indeterminate relay_this_data_backwd (htons r.entry.given_circuit_id))
          23 m.msg 0 m.actual_length (omega arith) (omega arith))
        (ap
          (λ n.
            relay_this_stuff e r (record {
              msg =
                  place
                    (frame e.indeterminate relay_this_data_backwd (htons r.entry.given_circuit_id))
                    23 (wire m);
              actual_length = n;
            })
            >>= λ out. ok (out.0, m))
          (omega arith)))

  -- A packet from outside, at the last router, goes to its requester likewise.
  pub handle_plain_reply :
      (r : Router) (from : SockAddr) (packet : List ℕ)
      → r.stage ≡ 5
      → length packet ≡ 84
      → (l' h' ip : ℕ) × (newest_of (handle e r (from_raw (arrived from packet)))
          ≡ some (
              udp_sent r.entry.circuit_requester_addr
                (tor_bytes relay_this_data_backwd l' h' (readdressed ip packet))))
        × (r.entry.circuit_requester_addr.sin_port ≡ htons r.port_no_of_proxy → ip ≡ e.nic 0)
  unfolding handle raw_readable
  handle_plain_reply r from packet stage size =
      let m = arrival r packet in
      let f = frame e.indeterminate relay_this_data_backwd (htons r.entry.given_circuit_id) in
      let t =
        subst
          (IsTor (attached f m) relay_this_data_backwd (r.entry.given_circuit_id / 256 % 256)
            (r.entry.given_circuit_id % 256))
          (slice-place r.r_message.msg 0 packet)
          (attached-IsTor e.indeterminate relay_this_data_backwd r.entry.given_circuit_id m
            (omega arith)) in
      let (r', m', l', h', ip, runs, out, last) =
        returned (record r { r_message = m }) packet t size in
      (
        l',
        h',
        ip,
        ap newest_of (
              >>=-ok _ _ (raw_receive_message_lem r.r_message from packet size) (
                >>=-ok _ _
                  (raw_dispatch-stage5 (record r { r_message = m }) m stage
                    ∙ raw_stage5_lem (record r { r_message = m }) m size
                    ∙ >>=-ok _ _ runs refl)
                  refl))
            ∙ out,
        last,
      )
