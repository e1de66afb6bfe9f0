-- ===== src/Router/Handler/Keyless.antt =====
-- Data at a router of stage 6 that has no key yet.
use torupload.Socket.Receive.{receive_message_lem}
use torupload.Router.Relay6.Layers.{store_id-IsTor}
use torupload.Socket.{SockAddr, arrived}
use torupload.Router.Wrap.Bytes.{IsTor, payload_lem, tor_bytes, IsTor-protocol}
use torupload.Message.{Message, htons}
use torupload.Router.State.{Router, relay_data_fwd_enc, relay_data_bwd_enc, last_hop_port_number}
use torupload.Router.Handler.{handle, udp_readable, from_udp}
use torupload.Machine.{Machine}
use torupload.Base.{
  ◌==◌, Bool-cases, length, ℕ, ◌+◌, ◌≤◌, ◌≡◌, refl, ◌∙◌, ◌⊎◌, inr, none, List, arith, inl,
}
use torupload.Router.Relay6.{
  relay_this_stuff6, relay_peeled, relay_plain_to_world, relay_sealed, peel, circuit_key,
}
use torupload.Router.Handler.Stage6.{arrival, arrival-IsTor, stage6_message-relay, dispatch-stage6}
use torupload.Base.Outcome.{fault, null_pointer, >>=-ok, >>=-fault}

module _ (e : Machine) where
  -- The payload is taken out, and the key is then a null pointer.
  relay_plain_to_world-none :
      (r : Router) {m : Message} {c l h : ℕ} {xs : List ℕ}
      → r.entry.ptr_to_key_for_cct ≡ none
      → IsTor m c l h xs
      → m.actual_length ≤ 500
      → relay_plain_to_world e r m ≡ fault null_pointer
  unfolding relay_plain_to_world circuit_key
  relay_plain_to_world-none r missing t room = >>=-ok _ _ (payload_lem e t room) (rw missing refl)

  peel-none :
      (r : Router) {m : Message} {c l h : ℕ} {xs : List ℕ}
      → r.entry.ptr_to_key_for_cct ≡ none
      → IsTor m c l h xs
      → m.actual_length ≤ 500
      → peel e r m ≡ fault null_pointer
  unfolding peel circuit_key
  peel-none r missing t room =
      >>=-ok _ _ (payload_lem e (store_id-IsTor (htons r.entry.my_circuit_id) t) room)
        (rw missing refl)

  relay_peeled-none :
      (r : Router) {m : Message} {c l h : ℕ} {xs : List ℕ}
      → r.entry.ptr_to_key_for_cct ≡ none
      → IsTor m c l h xs
      → m.actual_length ≤ 500
      → relay_peeled e r m ≡ fault null_pointer
  unfolding relay_peeled
  relay_peeled-none r missing t room = >>=-fault _ _ (peel-none r missing t room)

  relay_sealed-none :
      (r : Router) {m : Message} {c l h : ℕ} {xs : List ℕ}
      → r.entry.ptr_to_key_for_cct ≡ none
      → IsTor m c l h xs
      → m.actual_length ≤ 500
      → relay_sealed e r m ≡ fault null_pointer
  unfolding relay_sealed circuit_key
  relay_sealed-none r missing t room =
      >>=-ok _ _ (payload_lem e (store_id-IsTor (htons r.entry.given_circuit_id) t) room)
        (rw missing refl)

  relay_this_stuff6-none :
      (r : Router) {m : Message} {c l h : ℕ} {xs : List ℕ}
      → r.entry.ptr_to_key_for_cct ≡ none
      → IsTor m c l h xs
      → m.actual_length ≤ 500
      → (c ≡ relay_data_fwd_enc) ⊎ (c ≡ relay_data_bwd_enc)
      → relay_this_stuff6 e r m ≡ fault null_pointer
  unfolding relay_this_stuff6
  relay_this_stuff6-none r {m} missing t room (inl fwd) =
      let world = relay_plain_to_world-none r missing t room in
      let next = relay_peeled-none r missing t room in
      rw (t.command_byte, fwd)
        (elim (Bool-cases (r.entry.next_hop_rtr_for_circuit.sin_port == last_hop_port_number)) [
          | inl last ↦ rw (last, world) refl
          | inr more ↦ rw (more, next) refl
        ])
  relay_this_stuff6-none r missing t room (inr bwd) =
      rw (t.command_byte, bwd, relay_sealed-none r missing t room) refl

  -- A data message, forward or backward, at a router of stage 6 that has no key: of whatever
  -- sender, identifier and payload (of at most 477 bytes), it makes `Handler` dereference a null
  -- pointer.
  pub handle-keyless :
      (r : Router) (from : SockAddr) (c l h : ℕ) (xs : List ℕ)
      → r.stage ≡ 6
      → r.entry.ptr_to_key_for_cct ≡ none
      → 23 + length xs ≤ 500
      → (c ≡ relay_data_fwd_enc) ⊎ (c ≡ relay_data_bwd_enc)
      → handle e r (from_udp (arrived from (tor_bytes c l h xs))) ≡ fault null_pointer
  unfolding handle udp_readable
  handle-keyless r from c l h xs stage missing room command =
      >>=-ok _ _
        (receive_message_lem r.sock_child r.r_message from (tor_bytes c l h xs) (omega arith))
        (>>=-fault _ _ (
          dispatch-stage6 e _ m stage (IsTor-protocol t)
          ∙ stage6_message-relay e _ xs t (omega arith) command
          ∙ relay_this_stuff6-none _ missing t (omega arith) command))
    where
      m : Message
      m = arrival r (tor_bytes c l h xs)

      t : IsTor m c l h xs
      t = arrival-IsTor r c l h xs
