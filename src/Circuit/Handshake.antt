-- ===== src/Circuit/Handshake.antt =====
-- A new router of stage 6, given its key and its next hop by the proxy.
use torupload.Base.{
  length, ℕ, ◌+◌, ◌*◌, ◌%◌, ◌<◌, ◌≡◌, true, false, some, List, [], ◌∷◌, refl, inl, inr, arith,
}
use torupload.Base.Outcome.{ok, >>=-ok}
use torupload.Aes.{IsAes}
use torupload.Machine.{Machine}
use torupload.Key.{key_from_proxy}
use torupload.Key.RoundTrip.{seal, length-seal, key_from_proxy-IsKey}
use torupload.Socket.{SockAddr, arrived}
use torupload.Trace.{udp_sent}
use torupload.Router.State.{
  Router, enc_circuit_extend, enc_circuit_extend_done, fake_diffie_hellman,
}
use torupload.Router.Wrap.Bytes.{tor_bytes}
use torupload.Router.Create6.Handshake.{
  keyed, extended, answer, cct_creation_6-key, cct_creation_6-extend,
}
use torupload.Router.Handler.{handler, from_udp}
use torupload.Router.Handler.Stage6.{noticed, arrival, handle-creation, arrival-IsTor}
use torupload.Circuit.{newest}
use torupload.Circuit.Forward.{HoldsKey}

-- What the router is after its two messages.
pub record IsReady (e : Machine) (old r : Router) (from : SockAddr) (l h port : ℕ) (text : List ℕ)
    : Type 0 where
  pub holds : HoldsKey e r (key_from_proxy e text)
  pub requester : r.entry.circuit_requester_addr ≡ from
  pub given : r.entry.given_circuit_id ≡ l * 256 + h
  pub own : r.entry.my_circuit_id ≡ (l * 256 + h + old.my_router_id * 256 + 1) % 65536
  pub next : r.entry.next_hop_rtr_for_circuit.sin_port ≡ port
  pub flags : (r.to_forward_fdh ≡ true) × (r.to_forward_ece ≡ true)
  pub answered : newest r.trace ≡ some (udp_sent from (tor_bytes enc_circuit_extend_done l h []))

module _ (e : Machine) (laws : IsAes e.aes) where
  -- Two messages reach a router of stage 6 that has taken neither a key nor an extension: a key of
  -- 16 bytes, and the port of the next hop encrypted under that key, both from one sender and with
  -- one identifier. `Handler` treats both without a fault; then the router holds the key with its
  -- schedules, the sender is its requester, the given identifier is read in network order, its own
  -- one is the given one plus 256 times the router's number plus 1 in 16 bits, the next hop has the
  -- port, both flags are set, and the last thing sent is the answer to the sender, under the
  -- identifier that came.
  pub handler-IsReady :
      (r : Router) (from : SockAddr) (l h low high : ℕ) (text : List ℕ)
      → r.stage ≡ 6
      → r.to_forward_fdh ≡ false
      → r.to_forward_ece ≡ false
      → l < 256
      → h < 256
      → length text ≡ 16
      → (r' : Router) × (handler e r (
            from_udp (arrived from (tor_bytes fake_diffie_hellman l h text))
            ∷ from_udp (
                arrived from (
                  tor_bytes enc_circuit_extend l h
                    (seal e (key_from_proxy e text) (low ∷ high ∷ []))))
            ∷ [])
          ≡ ok r')
        × IsReady e r r' from l h (low + 256 * high) text
  unfolding handler
  handler-IsReady r from l h low high text stage fresh_key fresh_extend hl hh size =
      let k = key_from_proxy e text in
      let sealed = seal e k (low ∷ high ∷ []) in
      let m1 = arrival r (tor_bytes fake_diffie_hellman l h text) in
      let r1 = record (keyed e (noticed r from fake_diffie_hellman l h text) l h text) {
        r_message = m1;
      } in
      let len = length-seal e laws k (low ∷ high ∷ []) in
      let m2 = arrival r1 (tor_bytes enc_circuit_extend l h sealed) in
      let r2 =
        record (extended (noticed r1 from enc_circuit_extend l h sealed) l h (low + 256 * high)) {
          r_message = answer m2;
        } in
      (
        r2,
        >>=-ok _ _
            (handle-creation e r from 0x65 l h text stage (omega (arith, size)) (inl refl) (
              cct_creation_6-key e (noticed r from fake_diffie_hellman l h text) text fresh_key
                (arrival-IsTor r fake_diffie_hellman l h text) size))
            (>>=-ok _ _
              (handle-creation e r1 from 0x62 l h sealed stage (omega (arith, len)) (inr (inl refl))
                (cct_creation_6-extend e laws (noticed r1 from enc_circuit_extend l h sealed) low
                  high k fresh_extend refl (key_from_proxy-IsKey e text size)
                  (arrival-IsTor r1 enc_circuit_extend l h sealed) (omega (arith, len))
                  (omega arith)))
              refl),
        record {
          holds = record {
            stage = stage;
            key = refl;
            schedules = key_from_proxy-IsKey e text size;
          };
          requester = refl;
          given = omega arith;
          own = omega arith;
          next = refl;
          flags = (refl, refl);
          answered = refl;
        },
      )
