-- ===== src/Router/Create6/Handshake.antt =====
-- How a router of stage 6 comes to its key, its next hop and its identifiers.
use torupload.Router.Relay6.Layers.{circuit_key_lem, send_message_lem}
use torupload.Key.RoundTrip.{IsKey, seal, decrypt_this_message_lem, packed, wire-packed}
use torupload.Router.Create.{own_circuit_id}
use torupload.Aes.{IsAes}
use torupload.Base.{
  eq→==, length, ℕ, ◌+◌, ◌*◌, ◌≡◌, sym, ap, ap₂, ◌∙◌, true, false, some, List, arith, ◌≤◌, refl, [],
  ◌∷◌,
}
use torupload.Base.Outcome.{ok, >>=-ok}
use torupload.Message.{Message, htons, slice, store8, load16}
use torupload.Machine.{Machine}
use torupload.Key.{key_from_proxy, MyKey}
use torupload.Trace.{fake_diffie_hellman, udp_sent, new_secure_extend}
use torupload.Router.State.{
  Router, log_it, enc_circuit_extend_done, enc_circuit_extend, proto_mini_tor,
}
use torupload.Router.State
use torupload.Router.Wrap.Bytes.{IsTor, IsTor-protocol, tor_bytes, payload_lem, wire-IsTor}
use torupload.Router.Create6.{take_key, accept_secure_extend, cct_creation_6}

-- The router that has taken a key from a message with these identifier bytes.
abbrev pub keyed : Machine → Router → ℕ → ℕ → List ℕ → Router
keyed e r l h text =
    log_it
      (record r {
        to_forward_fdh = true;
        entry = record r.entry {
          circuit_requester_addr = r.sock_child.last_sender;
          given_circuit_id = htons (l + 256 * h);
          ptr_to_key_for_cct = some (key_from_proxy e text);
        };
      })
      (fake_diffie_hellman (htons (l + 256 * h)) text)

module _ (e : Machine) where
  take_key_lem :
      (r : Router) {m : Message} {c l h : ℕ} (text : List ℕ)
      → IsTor m c l h text
      → length text ≡ 16
      → take_key e r m ≡ ok (keyed e r l h text, m)
  unfolding take_key
  take_key_lem r {m} {c} {l} {h} text t size =
      rw (eq→== m.actual_length 39 (omega (arith, t.len))) (
        ap₂
          (λ xs id. ok (
            log_it
                (record r {
                  to_forward_fdh = true;
                  entry = record r.entry {
                    circuit_requester_addr = r.sock_child.last_sender;
                    given_circuit_id = id;
                    ptr_to_key_for_cct = some (key_from_proxy e xs);
                  };
                })
                (fake_diffie_hellman id xs),
            m,
          ))
          (ap (slice m.msg 23) (sym size) ∙ t.body)
          (ap₂ (λ a b. htons (a + 256 * b)) t.low_byte t.high_byte))

  -- The first key message is taken: the key is the payload, the sender is the requester, and the
  -- identifier is read in network order.
  pub cct_creation_6-key :
      (r : Router) {m : Message} {l h : ℕ} (text : List ℕ)
      → r.to_forward_fdh ≡ false
      → IsTor m State.fake_diffie_hellman l h text
      → length text ≡ 16
      → cct_creation_6 e r m ≡ ok (keyed e r l h text, m)
  unfolding cct_creation_6
  cct_creation_6-key r {m} text fresh t size =
      rw (IsTor-protocol t, t.command_byte, fresh) (take_key_lem r text t size)

-- The answer to an extension request.
abbrev pub answer : Message → Message
answer m = record { msg = store8 m.msg 20 enc_circuit_extend_done; actual_length = 23 }

answer-IsTor :
    {m : Message} {c l h : ℕ} {xs : List ℕ}
    → IsTor m c l h xs
    → IsTor (answer m) enc_circuit_extend_done l h []
answer-IsTor t = record {
  head = t.head;
  command_byte = refl;
  low_byte = t.low_byte;
  high_byte = t.high_byte;
  body = refl;
  len = refl;
}

-- The router that has learnt its next hop's port, and has answered.
abbrev pub extended : Router → ℕ → ℕ → ℕ → Router
extended r l h port =
    let own = own_circuit_id r r.entry.given_circuit_id in
    log_it
      (record r {
        to_forward_ece = true;
        sock_child = record r.sock_child { send_to_address = r.sock_child.last_sender };
        entry = record r.entry {
          my_circuit_id = own;
          next_hop_rtr_for_circuit = record r.entry.next_hop_rtr_for_circuit { sin_port = port };
        };
        trace =
            udp_sent r.sock_child.last_sender (tor_bytes enc_circuit_extend_done l h []) ∷ r.trace;
      })
      (new_secure_extend r.entry.given_circuit_id own (htons port))

module _ (e : Machine) (laws : IsAes e.aes) where
  accept_secure_extend_lem :
      (r : Router) {m : Message} {c l h : ℕ} (low high : ℕ) (k : MyKey)
      → r.entry.ptr_to_key_for_cct ≡ some k
      → IsKey e k
      → IsTor m c l h (seal e k (low ∷ high ∷ []))
      → m.actual_length ≤ 500
      → l + 256 * h ≡ htons r.entry.given_circuit_id
      → accept_secure_extend e r m ≡ ok (extended r l h (low + 256 * high), answer m)
  unfolding accept_secure_extend
  accept_secure_extend_lem r {m} {c} {l} {h} low high k has key t room same =
      >>=-ok _ _ (payload_lem e t room) (
        >>=-ok _ _ (circuit_key_lem has) (
          >>=-ok _ _
            (decrypt_this_message_lem e laws k (packed e sealed) (low ∷ high ∷ []) key
              (wire-packed e sealed) (omega (arith, t.len)))
            (rw
              (eq→== (load16 (answer m).msg 21) (htons r.entry.given_circuit_id)
                (ap₂ (λ a b. a + 256 * b) t.low_byte t.high_byte ∙ same))
              (>>=-ok _
                (λ r2. ok (
                  log_it r2
                      (new_secure_extend r.entry.given_circuit_id own (htons (low + 256 * high))),
                  answer m,
                ))
                (send_message_lem r1 (answer m) (omega arith)
                  ∙ ap
                      (λ bytes.
                        ok (record r1 {
                          trace = udp_sent r.sock_child.last_sender bytes ∷ r1.trace;
                        }))
                      (wire-IsTor (answer-IsTor t)))
                refl))))
    where
      sealed : List ℕ
      sealed = seal e k (low ∷ high ∷ [])

      own : ℕ
      own = own_circuit_id r r.entry.given_circuit_id

      r1 : Router
      r1 = record r {
        to_forward_ece = true;
        sock_child = record r.sock_child { send_to_address = r.sock_child.last_sender };
        entry = record r.entry {
          my_circuit_id = own;
          next_hop_rtr_for_circuit = record r.entry.next_hop_rtr_for_circuit {
            sin_port = low + 256 * high;
          };
        };
      }

  -- The first extension request is accepted: the payload under the router's key is the port of its
  -- next hop, and the answer goes back under the identifier that came.
  pub cct_creation_6-extend :
      (r : Router) {m : Message} {l h : ℕ} (low high : ℕ) (k : MyKey)
      → r.to_forward_ece ≡ false
      → r.entry.ptr_to_key_for_cct ≡ some k
      → IsKey e k
      → IsTor m enc_circuit_extend l h (seal e k (low ∷ high ∷ []))
      → m.actual_length ≤ 500
      → l + 256 * h ≡ htons r.entry.given_circuit_id
      → cct_creation_6 e r m ≡ ok (extended r l h (low + 256 * high), answer m)
  unfolding cct_creation_6
  cct_creation_6-extend r {m} low high k fresh has key t room same =
      rw (eq→== (m.msg 9) proto_mini_tor (IsTor-protocol t), t.command_byte, fresh)
        (accept_secure_extend_lem r low high k has key t room same)
