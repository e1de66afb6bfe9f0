-- ===== src/Proxy/Onion.antt =====
-- `CreateOnionEncryptMessages` of proxy.cc: the messages of stage 6.
pub mod Bytes
pub mod Setup
use torupload.Base.{◌==◌, if◌then◌else◌, ℕ, ◌+◌}
use torupload.Base.Outcome.{Outcome, ok, assertion, guard, ◌>>=◌, ◌>>◌}
use torupload.Message.{Message, Buffer, store16, store32, htons, memcpy, fill, u16}
use torupload.Machine.{Machine}
use torupload.Onion.{hop_at, hop_key, onion_encrypt}
use torupload.Socket.{address_of_router}
use torupload.Router.State.{
  fake_diffie_hellman, enc_circuit_extend, relay_data_fwd_enc, last_hop_port_number,
}
use torupload.Router.Wrap.{frame}
use torupload.Proxy.State.{Proxy}

-- `memcpy(out.msg + 23, encrypted.msg, encrypted.actualLength)` behind the frame.
unfoldable pub attach : Buffer → Message → Outcome Message
unfolding memcpy
attach f encrypted = do
  g ← memcpy f 23 encrypted.msg 0 encrypted.actual_length
  ok (record { msg = g; actual_length = u16 (23 + encrypted.actual_length) })

-- The port that hop `nth_hop` is told to extend to; 0xff marks the end of the circuit.
unfoldable pub port_of_next_hop : Proxy → ℕ → Outcome ℕ
unfolding hop_at address_of_router
port_of_next_hop p nth_hop = do
  h ← hop_at p.tor_cct_hops (nth_hop + 1)
  let to_router = address_of_router p.sock_parent h.router_id >>= λ a. ok a.sin_port
  if h.router_id == 0xff then ok last_hop_port_number else to_router

module _ (e : Machine) where
  -- `CreateOnionEncryptMessages(CircuitID, nth_hop, FAKE_DIFFIE_HELLMAN, NULL)`.
  unfoldable pub key_message : Proxy → ℕ → ℕ → Outcome Message
  unfolding hop_key fill attach
  key_message p circuit_id nth_hop = do
    k ← hop_key p.tor_cct_hops nth_hop
    text ← fill e.indeterminate 0 k.key_text
    encrypted ← onion_encrypt e p.tor_cct_hops (record { msg = text; actual_length = 16 }) nth_hop
    attach (frame e.indeterminate fake_diffie_hellman (htons circuit_id)) encrypted

  -- `CreateOnionEncryptMessages(CircuitID, nth_hop, ENC_CIRCUIT_EXTEND, NULL)`.
  unfoldable pub extend_message : Proxy → ℕ → ℕ → Outcome Message
  unfolding port_of_next_hop attach
  extend_message p circuit_id nth_hop = do
    port ← port_of_next_hop p nth_hop
    let plain : Message = record { msg = store16 e.indeterminate 0 port; actual_length = 2 }
    encrypted ← onion_encrypt e p.tor_cct_hops plain (nth_hop + 1)
    attach (frame e.indeterminate enc_circuit_extend (htons circuit_id)) encrypted

  -- `CreateOnionEncryptMessages(CircuitID, nth_hop, RELAY_DATA_FWD_ENC, packet)`.
  unfoldable pub data_message : Proxy → ℕ → ℕ → Message → Outcome Message
  unfolding attach
  data_message p circuit_id nth_hop packet = do
    guard (packet.actual_length == 84) assertion
    let blank : Message = record packet { msg = store32 packet.msg 12 0 }
    encrypted ← onion_encrypt e p.tor_cct_hops blank (nth_hop + 1)
    attach (frame e.indeterminate relay_data_fwd_enc (htons circuit_id)) encrypted
