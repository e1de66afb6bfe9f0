-- ===== src/Router/Relay6/Layers.antt =====
-- What `RelayThisStuff6` sends on.
use torupload.Socket.{SockAddr}
use torupload.Message.Laws.{slice_ext}
use torupload.Base.{
  le→leb, ℕ, ◌/◌, ◌%◌, ◌≤◌, ◌≡◌, refl, some, List, ◌∷◌, length, ◌+◌, ◌∙◌, inr, Option, arith, ne→==,
  ap, ap₂, ◌≢◌,
}
use torupload.Base.Outcome.{ok, >>=-ok}
use torupload.Message.{Message, wire, store16, htons}
use torupload.Checksum.Verify.{store16-outside}
use torupload.Aes.{IsAes}
use torupload.Machine.{Machine}
use torupload.Key.{MyKey}
use torupload.Key.RoundTrip.{
  IsKey, packed, seal, decrypt_this_message_lem, wire-packed, length-seal, encrypt_this_message_lem,
}
use torupload.Trace.{udp_sent, relay_reply_encrypted, relay_encrypted}
use torupload.Router.State.{
  Router, send_message, set_receiver, relay_data_fwd_enc, relay_data_bwd_enc, log_it,
}
use torupload.Router.Wrap.Bytes.{
  IsTor, framed, payload_lem, put_payload_lem, tor_bytes, wire-IsTor, framed-IsTor,
}
use torupload.Router.Relay6.{relay_sealed, relay_peeled, peel, circuit_key, relay_this_stuff6}

-- `SendMessage` of a message that fits.
pub send_message_lem :
    (r : Router) (m : Message)
    → m.actual_length ≤ 500
    → send_message r m
      ≡ ok (record r { trace = udp_sent r.sock_child.send_to_address (wire m) ∷ r.trace })
unfolding send_message
send_message_lem r m h = rw (le→leb m.actual_length 500 h)

pub store_id-IsTor :
    {m : Message} {c l h : ℕ} {xs : List ℕ} (id : ℕ)
    → IsTor m c l h xs
    → IsTor (record m { msg = store16 m.msg 21 id }) c (id % 256) (id / 256 % 256) xs
store_id-IsTor {m} {xs = xs} id t = record {
  head = t.head;
  command_byte = t.command_byte;
  low_byte = refl;
  high_byte = refl;
  body =
      slice_ext (store16 m.msg 21 id) m.msg 23 23 (length xs)
        (λ i lt. store16-outside m.msg 21 id (23 + i) (inr (omega arith)))
      ∙ t.body;
  len = t.len;
}

pub circuit_key_lem : {o : Option MyKey} {k : MyKey} → o ≡ some k → circuit_key o ≡ ok k
unfolding circuit_key
circuit_key_lem has = rw has

module _ (e : Machine) (laws : IsAes e.aes) where
  pub peel_lem :
      (r : Router) {m : Message} {c l h : ℕ} (xs : List ℕ) (k : MyKey)
      → r.entry.ptr_to_key_for_cct ≡ some k
      → IsKey e k
      → IsTor m c l h (seal e k xs)
      → m.actual_length ≤ 500
      → peel e r m ≡ ok (framed m (htons r.entry.my_circuit_id) xs, packed e xs)
  unfolding peel
  peel_lem r {m} xs k has key t room = >>=-ok _ _ (payload_lem e (store_id-IsTor id t) room) (
      >>=-ok _ _ (circuit_key_lem has) (
        >>=-ok _ _
          (decrypt_this_message_lem e laws k (packed e sealed) xs key (wire-packed e sealed) fits)
          (>>=-ok _ _ (put_payload_lem e m id xs (omega (arith, t.len, length-seal e laws k xs)))
            refl)))
    where
      id : ℕ
      id = htons r.entry.my_circuit_id

      sealed : List ℕ
      sealed = seal e k xs

      fits : length sealed ≤ 500
      fits = omega (arith, t.len)

  -- A router after it has sent these bytes to this address.
  abbrev pub after_send : Router → SockAddr → List ℕ → Router
  after_send r a bytes =
      let r1 = set_receiver r a in record r1 { trace = udp_sent a bytes ∷ r.trace }

  pub send_framed :
      (r : Router) {m : Message} {c l h : ℕ} {xs : List ℕ} (id : ℕ) (ys : List ℕ) (a : SockAddr)
      → IsTor m c l h xs
      → 23 + length ys ≤ 500
      → send_message (set_receiver r a) (framed m (htons id) ys)
        ≡ ok (after_send r a (tor_bytes c (id / 256 % 256) (id % 256) ys))
  send_framed r {m} {c} id ys a t room =
      send_message_lem (set_receiver r a) (framed m (htons id) ys) room
      ∙ ap (λ bytes. ok (after_send r a bytes))
          (wire-IsTor (framed-IsTor (htons id) ys t)
            ∙ ap₂ (λ low high. tor_bytes c low high ys) (omega arith) (omega arith))

  -- What one router makes of a forward message that is not for it.
  abbrev pub forwarded : Router → List ℕ → Router
  forwarded r xs =
      log_it
        (after_send r r.entry.next_hop_rtr_for_circuit (
          tor_bytes relay_data_fwd_enc (r.entry.my_circuit_id / 256 % 256)
            (r.entry.my_circuit_id % 256) xs))
        (relay_encrypted r.entry.given_circuit_id r.entry.my_circuit_id)

  relay_peeled_lem :
      (r : Router) {m : Message} {c l h : ℕ} (xs : List ℕ) (k : MyKey)
      → r.entry.ptr_to_key_for_cct ≡ some k
      → IsKey e k
      → IsTor m c l h (seal e k xs)
      → m.actual_length ≤ 500
      → relay_peeled e r m
        ≡ ok (
          after_send r r.entry.next_hop_rtr_for_circuit
              (tor_bytes c (r.entry.my_circuit_id / 256 % 256) (r.entry.my_circuit_id % 256) xs),
          framed m (htons r.entry.my_circuit_id) xs,
        )
  unfolding relay_peeled
  relay_peeled_lem r xs k has key t room = >>=-ok _ _ (peel_lem r xs k has key t room) (
      >>=-ok _ _
        (send_framed r r.entry.my_circuit_id xs r.entry.next_hop_rtr_for_circuit t
          (omega (arith, t.len, length-seal e laws k xs)))
        refl)

  -- Forward, at a router with a key whose next hop is not the end of the circuit: of a message of
  -- at most 500 bytes whose payload is `xs` under the router's key, `RelayThisStuff6` sends `xs` to
  -- the next hop, framed with the router's own circuit identifier, and logs the mapping.
  pub relay_this_stuff6_forward :
      (r : Router) {m : Message} {l h : ℕ} (xs : List ℕ) (k : MyKey)
      → r.entry.ptr_to_key_for_cct ≡ some k
      → IsKey e k
      → r.entry.next_hop_rtr_for_circuit.sin_port ≢ 0xffff
      → IsTor m relay_data_fwd_enc l h (seal e k xs)
      → m.actual_length ≤ 500
      → relay_this_stuff6 e r m ≡ ok (forwarded r xs, framed m (htons r.entry.my_circuit_id) xs)
  unfolding relay_this_stuff6
  relay_this_stuff6_forward r {m} xs k has key next t room =
      rw (t.command_byte, ne→== r.entry.next_hop_rtr_for_circuit.sin_port 0xffff next)
        (>>=-ok (relay_peeled e r m) _ (relay_peeled_lem r xs k has key t room) refl)

  relay_sealed_lem :
      (r : Router) {m : Message} {c l h : ℕ} (xs : List ℕ) (k : MyKey)
      → r.entry.ptr_to_key_for_cct ≡ some k
      → IsTor m c l h xs
      → m.actual_length + 16 ≤ 500
      → relay_sealed e r m
        ≡ ok (
          after_send r r.entry.circuit_requester_addr (
              tor_bytes c
                (r.entry.given_circuit_id / 256 % 256)
                (r.entry.given_circuit_id % 256)
                (seal e k xs)),
          framed m (htons r.entry.given_circuit_id) (seal e k xs),
        )
  unfolding relay_sealed
  relay_sealed_lem r {m} xs k has t room =
      >>=-ok _ _ (payload_lem e (store_id-IsTor id t) (omega arith)) (
        >>=-ok _ _ (circuit_key_lem has) (
          >>=-ok _ _
            (encrypt_this_message_lem e laws k (packed e xs) (omega (arith, t.len))
              ∙ ap (λ ys. ok (packed e (seal e k ys))) (wire-packed e xs))
            (>>=-ok _ _ (put_payload_lem e m id (seal e k xs) fits) (
              >>=-ok _ _
                (send_framed r r.entry.given_circuit_id (seal e k xs) r.entry.circuit_requester_addr
                  t fits)
                refl))))
    where
      id : ℕ
      id = htons r.entry.given_circuit_id

      fits : 23 + length (seal e k xs) ≤ 500
      fits = omega (arith, t.len, length-seal e laws k xs)

  abbrev pub returned : Router → MyKey → List ℕ → Router
  returned r k xs =
      log_it
        (after_send r r.entry.circuit_requester_addr (
          tor_bytes relay_data_bwd_enc (r.entry.given_circuit_id / 256 % 256)
            (r.entry.given_circuit_id % 256) (seal e k xs)))
        (relay_reply_encrypted r.entry.my_circuit_id r.entry.given_circuit_id)

  -- Backward, at a router with a key: of a message with payload `xs` that leaves 16 bytes of room,
  -- `RelayThisStuff6` sends `xs` under one more layer to the requester, framed with the identifier
  -- that the requester gave, and logs the mapping.
  pub relay_this_stuff6_backward :
      (r : Router) {m : Message} {l h : ℕ} (xs : List ℕ) (k : MyKey)
      → r.entry.ptr_to_key_for_cct ≡ some k
      → IsTor m relay_data_bwd_enc l h xs
      → m.actual_length + 16 ≤ 500
      → relay_this_stuff6 e r m
        ≡ ok (returned r k xs, framed m (htons r.entry.given_circuit_id) (seal e k xs))
  unfolding relay_this_stuff6
  relay_this_stuff6_backward r {m} xs k has t room =
      rw t.command_byte (>>=-ok (relay_sealed e r m) _ (relay_sealed_lem r xs k has t room) refl)
