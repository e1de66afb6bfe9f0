-- ===== src/Circuit/Reply.antt =====
-- A packet that comes in from outside at the last router of stage 6, up to the proxy's tunnel.
use mathlib.Core.List.{reverse}
use torupload.Socket.Receive.{raw_receive_message_lem}
use torupload.Onion.Peel.{wrap}
use torupload.Router.Handler.Stage6.{arrival}
use torupload.Circuit.Backward.{IsWayBack, travel-coats, coats-wrap}
use torupload.Circuit.Forward.{HoldsKey}
use torupload.Socket.{SockAddr, arrived}
use torupload.Circuit.{Node, newest_of, travel}
use torupload.Base.{
  eq→==, length, ℕ, ◌+◌, ◌/◌, ◌%◌, ◌≤◌, ◌≡◌, sym, ap, ◌∙◌, some, List, ◌∷◌, arith, ◌*◌, refl,
}
use torupload.Base.Outcome.{ok, >>=-ok}
use torupload.Message.{Message, Buffer, load32, slice, wire, store32, place, htons, u16}
use torupload.Message.Laws.{length-slice, memcpy_lem, slice-place}
use torupload.Aes.{IsAes}
use torupload.Machine.{Machine}
use torupload.Key.{MyKey}
use torupload.Key.RoundTrip.{seal, length-seal, packed, encrypt_this_message_lem, wire-packed}
use torupload.Trace.{udp_sent, logged, incoming_packet, Event}
use torupload.Router.State.{Router, relay_data_bwd_enc, set_receiver, log_it, send_message}
use torupload.Router.Wrap.{frame}
use torupload.Router.Wrap.Bytes.{tor_bytes, attached, wire-IsTor, attached-IsTor}
use torupload.Router.Relay6.Layers.{circuit_key_lem, send_message_lem}
use torupload.Router.Handler.{raw_stage6, raw_dispatch, handle, raw_readable, from_raw}

-- The packet as the last router encrypts it: its destination is blank.
abbrev pub unaddressed : Message → Message
unaddressed m = record m { msg = store32 m.msg 16 0 }

module _ (e : Machine) (laws : IsAes e.aes) where
  -- What the last router sends back, and the router after it.
  abbrev replied : Router → MyKey → Message → Router
  replied r k m = record (set_receiver r r.entry.circuit_requester_addr) {
    trace =
        udp_sent r.entry.circuit_requester_addr (
          tor_bytes relay_data_bwd_enc (r.entry.given_circuit_id / 256 % 256)
            (r.entry.given_circuit_id % 256) (seal e k (wire (unaddressed m))))
        ∷ logged (incoming_packet (load32 m.msg 12) (load32 m.msg 16) r.entry.given_circuit_id)
        ∷ r.trace;
  }

  raw_stage6_lem :
      (r : Router) (m : Message) (k : MyKey)
      → r.entry.ptr_to_key_for_cct ≡ some k
      → m.actual_length ≡ 84
      → raw_stage6 e r m ≡ ok (replied r k m, unaddressed m)
  unfolding raw_stage6
  raw_stage6_lem r m k has size = rw (eq→== m.actual_length 84 size) (
      >>=-ok _ _
        (memcpy_lem e.indeterminate 0 (unaddressed m).msg 0 m.actual_length (omega arith)
          (omega arith))
        (>>=-ok _ _ (circuit_key_lem has) (
          >>=-ok _ _
            (encrypt_this_message_lem e laws k copy (omega arith)
              ∙ ap (λ xs. ok (packed e (seal e k xs))) same)
            (>>=-ok _ _ (memcpy_lem f 23 q.msg 0 (length sealed) fits (omega (arith, fits)))
              (>>=-ok _ _ sent refl)))))
    where
      f : Buffer
      f = frame e.indeterminate relay_data_bwd_enc (htons r.entry.given_circuit_id)

      copy : Message
      copy = record {
        msg = place e.indeterminate 0 (wire (unaddressed m));
        actual_length = m.actual_length;
      }

      sealed : List ℕ
      sealed = seal e k (wire (unaddressed m))

      q : Message
      q = packed e sealed

      same : wire copy ≡ wire (unaddressed m)
      same =
          ap (slice copy.msg 0) (sym (length-slice (unaddressed m).msg 0 m.actual_length))
          ∙ slice-place e.indeterminate 0 (wire (unaddressed m))

      fits : 23 + length sealed ≤ 500
      fits = omega (
        arith,
        length-seal e laws k (wire (unaddressed m)),
        length-slice (unaddressed m).msg 0 m.actual_length,
      )

      r1 : Router
      r1 =
          set_receiver
            (log_it r
              (incoming_packet (load32 m.msg 12) (load32 m.msg 16) r.entry.given_circuit_id))
            r.entry.circuit_requester_addr

      wrapped : ℕ → Message
      wrapped n = record { msg = place f 23 (wire q); actual_length = n }

      sent : send_message r1 (wrapped (u16 (23 + length sealed))) ≡ ok (replied r k m)
      sent =
          ap (λ n. send_message r1 (wrapped n)) (omega (arith, fits))
          ∙ send_message_lem r1 (attached f q) fits
          ∙ ap
              (λ bytes.
                ok (record r1 { trace = udp_sent r.entry.circuit_requester_addr bytes ∷ r1.trace }))
              (wire-IsTor (
                  attached-IsTor e.indeterminate relay_data_bwd_enc r.entry.given_circuit_id q
                    (omega arith))
                ∙ ap
                    (tor_bytes relay_data_bwd_enc (r.entry.given_circuit_id / 256 % 256)
                      (r.entry.given_circuit_id % 256))
                    (wire-packed e sealed))

  raw_dispatch-stage6 :
      (r : Router) (m : Message) → r.stage ≡ 6 → raw_dispatch e r m ≡ raw_stage6 e r m
  unfolding raw_dispatch
  raw_dispatch-stage6 r m stage = rw stage

  handle_reply :
      (r : Router) (from : SockAddr) (packet : List ℕ) (k : MyKey)
      → HoldsKey e r k
      → length packet ≡ 84
      → newest_of (handle e r (from_raw (arrived from packet)))
        ≡ some (
            udp_sent r.entry.circuit_requester_addr (
              tor_bytes relay_data_bwd_enc
                (r.entry.given_circuit_id / 256 % 256)
                (r.entry.given_circuit_id % 256)
                (seal e k (wire (unaddressed (arrival r packet))))))
  unfolding handle raw_readable
  handle_reply r from packet k holds size = ap newest_of (
      >>=-ok _ _ (raw_receive_message_lem r.r_message from packet size) (
        >>=-ok _ _
          (raw_dispatch-stage6 _ (arrival r packet) holds.stage
            ∙ raw_stage6_lem (record r { r_message = arrival r packet }) (arrival r packet) k
                holds.key size)
          refl))

  -- A trip back. A packet of 84 bytes arrives on the raw socket of a router of stage 6 with key
  -- `k`; each of `nodes` holds its key of `ks` and is the requester of the node before it, the
  -- proxy of the last; the layers fit (`123 + 16 * length ks <= 500`). Then a datagram reaches the
  -- proxy's address whose payload is the packet, its destination set to 0, under one layer for each
  -- router, the layer of the last node, the first hop, outermost.
  pub travel_reply :
      (r : Router) (nodes : List Node) (k : MyKey) (ks : List MyKey) (from own proxy : SockAddr)
      (packet : List ℕ)
      → HoldsKey e r k
      → IsWayBack e r.entry.circuit_requester_addr nodes ks proxy
      → length packet ≡ 84
      → 123 + 16 * length ks ≤ 500
      → (event : Event) × (l h : ℕ) × (newest_of (handle e r (from_raw (arrived from packet)))
          ≡ some event)
        × (travel e nodes own event
            ≡ some (
                udp_sent proxy (
                  tor_bytes relay_data_bwd_enc l h
                    (wrap e (reverse (k ∷ ks)) (wire (unaddressed (arrival r packet)))))))
  travel_reply r nodes k ks from own proxy packet holds way size room =
      let xs = wire (unaddressed (arrival r packet)) in
      let (l, h, arrives) =
        travel-coats e laws nodes ks own r.entry.circuit_requester_addr proxy
          (r.entry.given_circuit_id / 256 % 256) (r.entry.given_circuit_id % 256) (seal e k xs) way
          (omega (
            arith,
            length-seal e laws k xs,
            length-slice (unaddressed (arrival r packet)).msg 0 (length packet),
          )) in
      (
        udp_sent r.entry.circuit_requester_addr (
            tor_bytes relay_data_bwd_enc (r.entry.given_circuit_id / 256 % 256)
              (r.entry.given_circuit_id % 256) (seal e k xs)),
        l,
        h,
        handle_reply r from packet k holds size,
        arrives
            ∙ ap (λ ys. some (udp_sent proxy (tor_bytes relay_data_bwd_enc l h ys)))
                (coats-wrap e (k ∷ ks) xs),
      )
