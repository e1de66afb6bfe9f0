-- ===== src/Router/Relay6/Exit.antt =====
-- What `RelayThisStuff6` lets out at the last hop.
use torupload.Router.Packet.{send_to_world}
use torupload.Message.Laws.{slice_ext, place-inside}
use torupload.Base.{
  ℕ, ◌≤◌, ◌≡◌, some, List, ◌∷◌, length, ◌+◌, ◌∙◌, arith, ap, ap₂, eq→==, get_or, ◌<◌, ◌*◌,
  get_or_inside,
}
use torupload.Base.Outcome.{ok, >>=-ok}
use torupload.Message.{Message, load32, slice, load16}
use torupload.Aes.{IsAes}
use torupload.Machine.{Machine}
use torupload.Key.{MyKey}
use torupload.Key.RoundTrip.{IsKey, packed, seal, decrypt_this_message_lem, wire-packed}
use torupload.Trace.{relay_encrypted, raw_sent}
use torupload.Router.State.{Router, relay_data_fwd_enc, log_it}
use torupload.Router.Wrap.Bytes.{IsTor, payload_lem}
use torupload.Router.Relay6.{relay_plain_to_world, relay_this_stuff6}
use torupload.Router.Relay6.Layers.{circuit_key_lem}

module _ (e : Machine) where
  pub packed-byte : (xs : List ℕ) (i : ℕ) → i < length xs → (packed e xs).msg i ≡ get_or xs i 0
  packed-byte xs i h =
      ap (packed e xs).msg {x = i} {y = 0 + i} (omega arith)
      ∙ place-inside e.indeterminate 0 xs i
      ∙ get_or_inside xs i (e.indeterminate (0 + i)) 0 h

  pub packed-load32 :
      (xs : List ℕ) (o : ℕ)
      → o + 4 ≤ length xs
      → load32 (packed e xs).msg o ≡ load32 (λ i. get_or xs i 0) o
  packed-load32 xs o h =
      ap₂ (λ a b. a + 65536 * b) (half o (omega arith)) (half (o + 2) (omega arith))
    where
      half :
          (p : ℕ) → p + 2 ≤ length xs → load16 (packed e xs).msg p ≡ load16 (λ i. get_or xs i 0) p
      half p fits =
          ap₂ (λ a b. a + 256 * b) (packed-byte xs p (omega arith))
            (packed-byte xs (p + 1) (omega arith))

  pub packed-slice :
      (xs : List ℕ) (o n : ℕ)
      → o + n ≤ length xs
      → slice (packed e xs).msg o n ≡ slice (λ i. get_or xs i 0) o n
  packed-slice xs o n h =
      slice_ext (packed e xs).msg (λ i. get_or xs i 0) o o n
        (λ i lt. packed-byte xs (o + i) (omega arith))

  pub send_to_world-packed :
      (r : Router) (xs : List ℕ)
      → length xs ≡ 84
      → send_to_world r (packed e xs) ≡ record r {
        trace =
            raw_sent (load32 (λ i. get_or xs i 0) 16) (slice (λ i. get_or xs i 0) 20 64) ∷ r.trace;
      }
  unfolding send_to_world
  send_to_world-packed r xs size =
      ap₂ (λ to bytes. record r { trace = raw_sent to bytes ∷ r.trace })
        (packed-load32 xs 16 (omega arith)) (packed-slice xs 20 64 (omega arith))

module _ (e : Machine) (laws : IsAes e.aes) where
  -- What the last router makes of a packet.
  abbrev pub released : Router → List ℕ → Router
  released r packet =
      log_it
        (record r {
          trace =
              raw_sent (load32 (λ i. get_or packet i 0) 16) (slice (λ i. get_or packet i 0) 20 64)
              ∷ r.trace;
        })
        (relay_encrypted r.entry.given_circuit_id r.entry.my_circuit_id)

  relay_plain_to_world_lem :
      (r : Router) {m : Message} {c l h : ℕ} (packet : List ℕ) (k : MyKey)
      → r.entry.ptr_to_key_for_cct ≡ some k
      → IsKey e k
      → IsTor m c l h (seal e k packet)
      → m.actual_length ≤ 500
      → length packet ≡ 84
      → load32 (λ i. get_or packet i 0) 12 ≡ 0
      → relay_plain_to_world e r m ≡ ok (send_to_world r (packed e packet), m)
  unfolding relay_plain_to_world
  relay_plain_to_world_lem r packet k has key t room size blank =
      >>=-ok _ _ (payload_lem e t room) (
        >>=-ok _ _ (circuit_key_lem has) (
          >>=-ok _ _
            (decrypt_this_message_lem e laws k (packed e (seal e k packet)) packet key
              (wire-packed e (seal e k packet)) (omega (arith, t.len)))
            (rw (
              eq→== (length packet) 84 size,
              eq→== (load32 (packed e packet).msg 12) 0
                  (packed-load32 e packet 12 (omega arith) ∙ blank),
            ))))

  -- Forward, at a router with a key whose next hop is the end of the circuit: of a message of at
  -- most 500 bytes whose payload is a packet of 84 bytes with a blank source under the router's
  -- key, `RelayThisStuff6` sends the 64 bytes behind the IP header to the packet's destination,
  -- sends nothing else, logs the mapping and leaves the message as it was.
  pub relay_this_stuff6_exit :
      (r : Router) {m : Message} {l h : ℕ} (packet : List ℕ) (k : MyKey)
      → r.entry.ptr_to_key_for_cct ≡ some k
      → IsKey e k
      → r.entry.next_hop_rtr_for_circuit.sin_port ≡ 0xffff
      → IsTor m relay_data_fwd_enc l h (seal e k packet)
      → m.actual_length ≤ 500
      → length packet ≡ 84
      → load32 (λ i. get_or packet i 0) 12 ≡ 0
      → relay_this_stuff6 e r m ≡ ok (released r packet, m)
  unfolding relay_this_stuff6
  relay_this_stuff6_exit r {m} packet k has key last t room size blank =
      rw (t.command_byte, eq→== r.entry.next_hop_rtr_for_circuit.sin_port 0xffff last)
        (>>=-ok (relay_plain_to_world e r m) _
          (relay_plain_to_world_lem r packet k has key t room size blank)
          (ap
            (λ r'.
              ok (log_it r' (relay_encrypted r.entry.given_circuit_id r.entry.my_circuit_id), m))
            (send_to_world-packed e r packet size)))
