-- ===== src/Router/Create6/Passing.antt =====
-- What a router of stage 6 does with the circuit messages of routers further on.
use torupload.Socket.{SockAddr, loopback}
use torupload.Key.RoundTrip.{IsKey, seal, length-seal, packed}
use torupload.Base.Outcome.{ok, >>=-ok}
use torupload.Key.{MyKey}
use torupload.Message.{Message, htons, store16, load16, slice}
use torupload.Aes.{IsAes}
use torupload.Machine.{Machine}
use torupload.Base.{
  ℕ, ◌+◌, ◌*◌, ◌/◌, ◌%◌, ◌≤◌, ◌≡◌, refl, ap, ap₂, ◌∙◌, true, some, List, [], ◌∷◌, arith, eq→==,
  le→leb, length, ◌-◌,
}
use torupload.Base.{if◌then◌else◌}
use torupload.Router.Create6.{
  accept_secure_extend, forward_secure_extend, return_extend_done, cct_creation_6, forward_key,
  take_key,
}
use torupload.Router.Relay6.Layers.{
  after_send, send_framed, peel_lem, send_message_lem, store_id-IsTor,
}
use torupload.Router.Wrap.Bytes.{framed, tor_bytes, wire-IsTor, IsTor, IsTor-protocol}
use torupload.Router.State.{
  Router, proto_mini_tor, set_receiver, log_it, enc_circuit_extend, enc_circuit_extend_done,
}
use torupload.Trace.{udp_sent, forwarding_extend_done, fake_diffie_hellman_forward}
use torupload.Router.State

module _ (e : Machine) (laws : IsAes e.aes) where
  forward_secure_extend_lem :
      (r : Router) {m : Message} {c l h : ℕ} (xs : List ℕ) (k : MyKey)
      → r.entry.ptr_to_key_for_cct ≡ some k
      → IsKey e k
      → IsTor m c l h (seal e k xs)
      → m.actual_length ≤ 500
      → forward_secure_extend e r m
        ≡ ok (
          after_send e laws r r.entry.next_hop_rtr_for_circuit
              (tor_bytes c (r.entry.my_circuit_id / 256 % 256) (r.entry.my_circuit_id % 256) xs),
          framed m (htons r.entry.my_circuit_id) xs,
        )
  unfolding forward_secure_extend
  forward_secure_extend_lem r xs k has key t room =
      >>=-ok _ _ (peel_lem e laws r xs k has key t room) (
        >>=-ok _ _
          (send_framed e laws r r.entry.my_circuit_id xs r.entry.next_hop_rtr_for_circuit t
            (omega (arith, t.len, length-seal e laws k xs)))
          refl)

  -- An extension request at a router that has a key and its own next hop already: of a message of
  -- at most 500 bytes whose payload is `xs` under the router's key, `CCtCreation_6` sends `xs` to
  -- the next hop, framed with the router's own circuit identifier, and sets the socket's receiver
  -- to it; nothing else of the router changes.
  pub cct_creation_6-forward_secure_extend :
      (r : Router) {m : Message} {l h : ℕ} (xs : List ℕ) (k : MyKey)
      → r.to_forward_ece ≡ true
      → r.entry.ptr_to_key_for_cct ≡ some k
      → IsKey e k
      → IsTor m enc_circuit_extend l h (seal e k xs)
      → m.actual_length ≤ 500
      → cct_creation_6 e r m
        ≡ ok (
          after_send e laws r r.entry.next_hop_rtr_for_circuit (
              tor_bytes enc_circuit_extend
                (r.entry.my_circuit_id / 256 % 256)
                (r.entry.my_circuit_id % 256)
                xs),
          framed m (htons r.entry.my_circuit_id) xs,
        )
  unfolding cct_creation_6
  cct_creation_6-forward_secure_extend r {m} xs k forward has key t room =
      rw (eq→== (m.msg 9) proto_mini_tor (IsTor-protocol t), t.command_byte)
        (ap (λ b. if b then forward_secure_extend e r m else accept_secure_extend e r m) forward
          ∙ forward_secure_extend_lem r xs k has key t room)

module _ (e : Machine) (laws : IsAes e.aes) where
  -- The router that has passed a key on, to a port that it printed and parsed again.
  abbrev pub key_passed : Router → List ℕ → Router
  key_passed r xs =
      let a : SockAddr = record {
        sin_addr = loopback;
        sin_port = htons (htons r.entry.next_hop_rtr_for_circuit.sin_port);
      } in
      log_it
        (after_send e laws r a (
          tor_bytes State.fake_diffie_hellman (r.entry.my_circuit_id / 256 % 256)
            (r.entry.my_circuit_id % 256) xs))
        (fake_diffie_hellman_forward r.entry.given_circuit_id
          ((packed e xs).msg 0 ∷ slice (packed e xs).msg 1 (length xs - 1)))

  forward_key_lem :
      (r : Router) {m : Message} {c l h : ℕ} (xs : List ℕ) (k : MyKey)
      → c ≡ State.fake_diffie_hellman
      → r.entry.ptr_to_key_for_cct ≡ some k
      → IsKey e k
      → IsTor m c l h (seal e k xs)
      → m.actual_length ≤ 500
      → forward_key e r m ≡ ok (key_passed r xs, framed m (htons r.entry.my_circuit_id) xs)
  unfolding forward_key
  forward_key_lem r {m} xs k command has key t room =
      >>=-ok _ _ (peel_lem e laws r xs k has key t room) (
        >>=-ok _ _
          (send_framed e laws r r.entry.my_circuit_id xs
            (record {
              sin_addr = loopback;
              sin_port = htons (htons r.entry.next_hop_rtr_for_circuit.sin_port);
            })
            t (omega (arith, t.len, length-seal e laws k xs)))
          (rw (command, le→leb (length xs) 500 (omega (arith, t.len, length-seal e laws k xs)))
            refl))

  -- A key message at a router that has a key and has taken it already: of a message of at most 500
  -- bytes whose payload is `xs` under the router's key, `CCtCreation_6` sends `xs` to the next
  -- hop's port on the local host, framed with the router's own circuit identifier, and logs it;
  -- nothing else of the router changes but the socket's receiver.
  pub cct_creation_6-forward_key :
      (r : Router) {m : Message} {l h : ℕ} (xs : List ℕ) (k : MyKey)
      → r.to_forward_fdh ≡ true
      → r.entry.ptr_to_key_for_cct ≡ some k
      → IsKey e k
      → IsTor m State.fake_diffie_hellman l h (seal e k xs)
      → m.actual_length ≤ 500
      → cct_creation_6 e r m ≡ ok (key_passed r xs, framed m (htons r.entry.my_circuit_id) xs)
  unfolding cct_creation_6
  cct_creation_6-forward_key r {m} xs k forward has key t room =
      rw (eq→== (m.msg 9) proto_mini_tor (IsTor-protocol t), t.command_byte)
        (ap (λ b. if b then forward_key e r m else take_key e r m) forward
          ∙ forward_key_lem r xs k refl has key t room)

module _ (e : Machine) where
  -- The answer with the identifier that the requester gave, and the router that has sent it.
  abbrev pub renamed : Router → Message → Message
  renamed r m = record m { msg = store16 m.msg 21 (htons r.entry.given_circuit_id) }

  abbrev pub answered : Router → Router
  answered r =
      let a = r.entry.circuit_requester_addr in
      let r1 = set_receiver r a in
      log_it
        (record r1 {
          trace =
              udp_sent a (
                tor_bytes enc_circuit_extend_done (r.entry.given_circuit_id / 256 % 256)
                  (r.entry.given_circuit_id % 256) [])
              ∷ r.trace;
        })
        (forwarding_extend_done r.entry.my_circuit_id r.entry.given_circuit_id (htons a.sin_port))

  -- An answer to an extension request that comes back, without payload, under the router's own
  -- circuit identifier: `CCtCreation_6` sends it to the requester under the identifier that the
  -- requester gave, and logs the mapping.
  pub cct_creation_6-return_extend_done :
      (r : Router) {m : Message} {l h : ℕ}
      → IsTor m enc_circuit_extend_done l h []
      → l + 256 * h ≡ htons r.entry.my_circuit_id
      → cct_creation_6 e r m ≡ ok (answered r, renamed r m)
  unfolding cct_creation_6 return_extend_done
  cct_creation_6-return_extend_done r {m} {l} {h} t mine =
      rw
        (
          eq→== (m.msg 9) proto_mini_tor (IsTor-protocol t),
          t.command_byte,
          eq→== (load16 m.msg 21) (htons r.entry.my_circuit_id)
              (ap₂ (λ a b. a + 256 * b) t.low_byte t.high_byte ∙ mine),
          eq→== m.actual_length 23 t.len,
        )
        (>>=-ok _
          (λ r1. ok (
            log_it r1 (
                forwarding_extend_done r.entry.my_circuit_id r.entry.given_circuit_id
                  (htons r.entry.circuit_requester_addr.sin_port)),
            renamed r m,
          ))
          (send_message_lem (set_receiver r r.entry.circuit_requester_addr) (renamed r m)
              (omega (arith, t.len))
            ∙ ap
                (λ bytes. ok (record (set_receiver r r.entry.circuit_requester_addr) {
                  trace = udp_sent r.entry.circuit_requester_addr bytes ∷ r.trace;
                }))
                (wire-IsTor (store_id-IsTor (htons r.entry.given_circuit_id) t)
                  ∙ ap₂ (λ low high. tor_bytes enc_circuit_extend_done low high []) (omega arith)
                      (omega arith)))
          refl)
