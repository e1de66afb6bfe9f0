-- ===== src/Proxy/Onion/Setup.antt =====
-- What the proxy sends in stage 6 to build a circuit.
use torupload.Proxy.Onion.Bytes.{attach_lem}
use torupload.Message.{Message, place, store16, wire, htons, slice}
use torupload.Onion.{hop_key, onion_encrypt}
use torupload.Base.Outcome.{ok, >>=-ok}
use torupload.Key.{MyKey}
use torupload.Proxy.State.{Proxy}
use torupload.Aes.{IsAes}
use torupload.Machine.{Machine}
use torupload.Base.{
  length, ℕ, ◌+◌, ◌*◌, ◌/◌, ◌%◌, ◌≤◌, ◌≡◌, sym, ◌∙◌, List, [], ◌∷◌, arith, ap, subst,
}
use torupload.Proxy.Onion.{key_message, extend_message, port_of_next_hop}
use torupload.Router.Wrap.Bytes.{attached, attached-IsTor, IsTor}
use torupload.Router.State.{fake_diffie_hellman, enc_circuit_extend}
use torupload.Router.Wrap.{frame}
use torupload.Message.Laws.{slice-place, fill_lem, length-slice}
use torupload.Onion.Peel.{HasKeys, wrap, length-wrap, onion_encrypt-wrap}

-- Where the first hops of the array carry the keys `ks`, the hop behind them has a key of 16 bytes,
-- and the layers fit (`39 + 16 * length ks <= 500`), `CreateOnionEncryptMessages` makes for that
-- hop a key message with the circuit's identifier in network order, whose payload is the hop's key
-- under one layer for each hop before it, the first hop's outermost.
pub key_message_lem :
    (e : Machine)
    → IsAes e.aes
    → (p : Proxy) (circuit_id : ℕ) (ks : List MyKey) (k : MyKey) → HasKeys p.tor_cct_hops ks
    → hop_key p.tor_cct_hops (length ks) ≡ ok k
    → length k.key_text ≡ 16
    → 39 + 16 * length ks ≤ 500
    → (m : Message) × (key_message e p circuit_id (length ks) ≡ ok m)
      × IsTor m fake_diffie_hellman
          (circuit_id / 256 % 256)
          (circuit_id % 256)
          (wrap e ks k.key_text)
unfolding key_message
key_message_lem e laws p circuit_id ks k has own size room =
    let plain : Message = record { msg = place e.indeterminate 0 k.key_text; actual_length = 16 } in
    let text : wire plain ≡ k.key_text =
      ap (slice plain.msg 0) (sym size) ∙ slice-place e.indeterminate 0 k.key_text in
    let (c, sealed, layers, len) =
      onion_encrypt-wrap e laws p.tor_cct_hops ks plain has (omega arith) in
    let fits : 23 + c.actual_length ≤ 500 =
      omega (arith, len, length-wrap e laws ks (wire plain), length-slice plain.msg 0 16) in
    let f = frame e.indeterminate fake_diffie_hellman (htons circuit_id) in
    (
      attached f c,
      >>=-ok _ _ own (
          >>=-ok _ _ (fill_lem e.indeterminate 0 k.key_text (omega (arith, size)))
            (>>=-ok _ _ sealed (attach_lem f c fits))),
      subst (IsTor (attached f c) fake_diffie_hellman (circuit_id / 256 % 256) (circuit_id % 256))
          (layers ∙ ap (wrap e ks) text)
          (attached-IsTor e.indeterminate fake_diffie_hellman circuit_id c (omega arith)),
    )

-- Where the first hops of the array carry the keys `ks`, which are those of the hops 0 to
-- `nth_hop`, the port of the hop behind them is known, and the layers fit (`25 + 16 * length ks <=
-- 500`), `CreateOnionEncryptMessages` makes for hop `nth_hop` an extension request with the
-- circuit's identifier in network order, whose payload is the two bytes of that port, as stored,
-- under one layer for each of the hops, the first one's outermost.
pub extend_message_lem :
    (e : Machine)
    → IsAes e.aes
    → (p : Proxy) (circuit_id nth_hop port : ℕ) (ks : List MyKey) → HasKeys p.tor_cct_hops ks
    → length ks ≡ nth_hop + 1
    → port_of_next_hop p nth_hop ≡ ok port
    → 25 + 16 * length ks ≤ 500
    → (m : Message) × (extend_message e p circuit_id nth_hop ≡ ok m)
      × IsTor m enc_circuit_extend
          (circuit_id / 256 % 256)
          (circuit_id % 256)
          (wrap e ks (port % 256 ∷ port / 256 % 256 ∷ []))
unfolding extend_message
extend_message_lem e laws p circuit_id nth_hop port ks has count next room =
    let plain : Message = record { msg = store16 e.indeterminate 0 port; actual_length = 2 } in
    let (c, sealed, layers, len) =
      onion_encrypt-wrap e laws p.tor_cct_hops ks plain has (omega arith) in
    let fits : 23 + c.actual_length ≤ 500 =
      omega (arith, len, length-wrap e laws ks (wire plain), length-slice plain.msg 0 2) in
    let f = frame e.indeterminate enc_circuit_extend (htons circuit_id) in
    (
      attached f c,
      >>=-ok _ _ next (
          >>=-ok _ _ (ap (onion_encrypt e p.tor_cct_hops plain) (sym count) ∙ sealed)
            (attach_lem f c fits)),
      subst (IsTor (attached f c) enc_circuit_extend (circuit_id / 256 % 256) (circuit_id % 256))
          layers (attached-IsTor e.indeterminate enc_circuit_extend circuit_id c (omega arith)),
    )
