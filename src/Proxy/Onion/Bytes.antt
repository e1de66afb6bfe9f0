-- ===== src/Proxy/Onion/Bytes.antt =====
-- What the proxy sends in stage 6.
use torupload.Base.{
  eq→==, length, ℕ, ◌+◌, ◌*◌, ◌/◌, ◌%◌, ◌≤◌, ◌≡◌, sym, ap, ◌∙◌, List, arith, subst,
}
use torupload.Base.Outcome.{ok, >>=-ok}
use torupload.Message.{Message, Buffer, store32, htons, wire, place}
use torupload.Message.Laws.{length-slice, memcpy_lem}
use torupload.Aes.{IsAes}
use torupload.Machine.{Machine}
use torupload.Key.{MyKey}
use torupload.Onion.{onion_encrypt}
use torupload.Onion.Peel.{HasKeys, wrap, length-wrap, onion_encrypt-wrap}
use torupload.Router.State.{relay_data_fwd_enc}
use torupload.Router.Wrap.{frame}
use torupload.Router.Wrap.Bytes.{attached, attached-IsTor, IsTor}
use torupload.Proxy.State.{Proxy}
use torupload.Proxy.Onion.{attach, data_message}

pub attach_lem :
    (f : Buffer) (m : Message) → 23 + m.actual_length ≤ 500 → attach f m ≡ ok (attached f m)
unfolding attach
attach_lem f m room =
    >>=-ok _ _ (memcpy_lem f 23 m.msg 0 m.actual_length room (omega arith))
      (ap (λ n. ok (record { msg = place f 23 (wire m); actual_length = n })) (omega arith))

-- The packet as it goes into the onion: its source is blank.
abbrev pub blanked : Message → Message
blanked m = record m { msg = store32 m.msg 12 0 }

-- Where the first hops of the array carry the keys `ks`, which are those of the hops 0 to `last`,
-- and the layers fit (`107 + 16 * length ks <= 500`), `CreateOnionEncryptMessages` makes of a
-- packet of 84 bytes a forward message with the circuit's identifier in network order, whose
-- payload is the packet, its source set to 0, under one layer for each key, the first key's
-- outermost.
pub data_message_lem :
    (e : Machine)
    → IsAes e.aes
    → (p : Proxy) (circuit_id last : ℕ) (packet : Message) (ks : List MyKey)
    → HasKeys p.tor_cct_hops ks
    → length ks ≡ last + 1
    → packet.actual_length ≡ 84
    → 107 + 16 * length ks ≤ 500
    → (m : Message) × (data_message e p circuit_id last packet ≡ ok m)
      × IsTor m relay_data_fwd_enc
          (circuit_id / 256 % 256)
          (circuit_id % 256)
          (wrap e ks (wire (blanked packet)))
unfolding data_message
data_message_lem e laws p circuit_id last packet ks has count size room =
    let (c, sealed, layers, len) =
      onion_encrypt-wrap e laws p.tor_cct_hops ks (blanked packet) has (omega arith) in
    let fits : 23 + c.actual_length ≤ 500 = omega (
      arith,
      len,
      length-wrap e laws ks (wire (blanked packet)),
      length-slice (blanked packet).msg 0 packet.actual_length,
    ) in
    let f = frame e.indeterminate relay_data_fwd_enc (htons circuit_id) in
    (
      attached f c,
      rw (eq→== packet.actual_length 84 size) (
          >>=-ok _ _ (ap (onion_encrypt e p.tor_cct_hops (blanked packet)) (sym count) ∙ sealed)
            (attach_lem f c fits)),
      subst (IsTor (attached f c) relay_data_fwd_enc (circuit_id / 256 % 256) (circuit_id % 256))
          layers (attached-IsTor e.indeterminate relay_data_fwd_enc circuit_id c (omega arith)),
    )
