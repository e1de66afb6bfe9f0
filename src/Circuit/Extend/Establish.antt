-- ===== src/Circuit/Extend/Establish.antt =====
-- One round of the loop of `Build_An_Circuit_6` against the routers of the circuit.
use torupload.Socket.Receive.{receive_message_lem}
use torupload.Circuit.Ping.{proxy_sends}
use torupload.Proxy.Onion.Setup.{key_message_lem, extend_message_lem}
use torupload.Circuit.Extend.Route.{first_port, carry-IsKeyed, exchange-IsLink}
use torupload.Proxy.Onion.{port_of_next_hop}
use torupload.Message.{Message, place, htons, load16}
use torupload.Base.Outcome.{ok, >>=-ok}
use torupload.Key.RoundTrip.{IsKey, seal, length-seal}
use torupload.Proxy.Build6.{establish_hop}
use torupload.Onion.Peel.{wrap, HasKeys, length-wrap}
use torupload.Aes.{IsAes}
use torupload.Trace.{Event, udp_sent}
use torupload.Machine.{Machine}
use torupload.Router.Wrap.Bytes.{tor_bytes, IsTor, wire-IsTor}
use torupload.Socket.{SockAddr, arrived}
use torupload.Key.{key_from_proxy, MyKey}
use torupload.Onion.{hop_key, TorHop}
use torupload.Base.{
  subst, length, length-append, ℕ, ◌+◌, ◌*◌, ◌/◌, ◌%◌, ◌≤◌, ◌<◌, ◌≡◌, refl, sym, ap, some, List, [],
  ◌∷◌, ◌++◌, arith, ap₂, ◌∙◌, eq→==,
}
use torupload.Circuit.Extend.{IsFresh, IsKeyed, IsLink, IsRoute, carry, exchange}
use torupload.Router.State.{
  fake_diffie_hellman, enc_circuit_extend, enc_circuit_extend_done, Router,
}
use torupload.Proxy.State.{send_message, Proxy}

HasKeys-front :
    (hs : List TorHop) (ks : List MyKey) (k : MyKey) → HasKeys hs (ks ++ k ∷ []) → HasKeys hs ks
HasKeys-front hs [] k has = tt
HasKeys-front [] (k' ∷ ks) k has = absurd has
HasKeys-front (h ∷ hs) (k' ∷ ks) k (first, has) = (first, HasKeys-front hs ks k has)

HasKeys-last :
    (hs : List TorHop) (ks : List MyKey) (k : MyKey)
    → HasKeys hs (ks ++ k ∷ [])
    → hop_key hs (length ks) ≡ ok k
unfolding hop_key
HasKeys-last [] [] k has = absurd has
HasKeys-last (h ∷ hs) [] k (first, has) = rw first refl
HasKeys-last [] (k' ∷ ks) k has = absurd has
HasKeys-last (h ∷ hs) (k' ∷ ks) k (first, has) = HasKeys-last hs ks k has

-- A key with its schedules is the one that a router makes of its text.
key_from_proxy-IsKey_eq : (e : Machine) (k : MyKey) → IsKey e k → key_from_proxy e k.key_text ≡ k
unfolding key_from_proxy
key_from_proxy-IsKey_eq e k key =
    ap₂ (λ enc dec. record { key_text = k.key_text; aes_key_enc = enc; aes_key_dec = dec })
      (sym key.enc) (sym key.dec)

wrap-append :
    (e : Machine) (ks : List MyKey) (k : MyKey) (xs : List ℕ)
    → wrap e (ks ++ k ∷ []) xs ≡ wrap e ks (seal e k xs)
wrap-append e [] k xs = refl
wrap-append e (k' ∷ ks) k xs = ap (seal e k') (wrap-append e ks k xs)

-- The answer that the proxy waits for.
abbrev pub done_bytes : ℕ → List ℕ
done_bytes id = tor_bytes enc_circuit_extend_done (id / 256 % 256) (id % 256) []

-- The proxy after a round: it has sent these two messages, and has the answer of `from`.
abbrev pub after_round : Proxy → SockAddr → Event → Event → Proxy
after_round p from ev1 ev2 = record p {
  sock_parent = record p.sock_parent { last_sender = from };
  trace = ev2 ∷ ev1 ∷ p.trace;
}

-- The proxy sends a message of this form.
sends_tor :
    (p : Proxy) {m : Message} {c l h : ℕ} {xs : List ℕ}
    → IsTor m c l h xs
    → 23 + length xs ≤ 500
    → send_message p m
      ≡ ok (record p {
        trace = udp_sent p.sock_parent.send_to_address (tor_bytes c l h xs) ∷ p.trace;
      })
sends_tor p {m} t room =
    proxy_sends p m (omega (arith, t.len))
    ∙ ap (λ bytes. ok (record p { trace = udp_sent p.sock_parent.send_to_address bytes ∷ p.trace }))
        (wire-IsTor t)

module _ (e : Machine) (laws : IsAes e.aes) where
  -- One round of `Build_An_Circuit_6`. The routers before the hop are linked up under the keys
  -- `ks`, the hop's own router has been given nothing yet, the proxy sends to the first of them and
  -- names the port `port` to the hop, the circuit's identifier has 16 bits, and the layers fit (`57
  -- + 16 * length ks <= 500`). The key that the proxy sends goes along the routers to the hop's
  -- own, the extension request follows it and is answered to the proxy under the circuit's
  -- identifier, with that answer the round ends without a fault whoever it comes from, and the
  -- routers are linked up then, the hop's own with its key and that port.
  pub establish_hop-IsLink :
      (p : Proxy) (answer : Message) (id port : ℕ) (ks : List MyKey) (k : MyKey) (own : SockAddr)
      (hops : List SockAddr) (rs : List Router)
      → IsRoute e (λ a i. IsFresh) own id hops rs ks
      → HasKeys p.tor_cct_hops (ks ++ k ∷ [])
      → IsKey e k
      → port_of_next_hop p (length ks) ≡ ok port
      → p.sock_parent.send_to_address.sin_port ≡ first_port hops
      → id < 65536
      → port < 65536
      → 57 + 16 * length ks ≤ 500
      → (ev1 : Event) × (ev2 : Event) × (rs1 : List Router) × (rs2 : List Router) × (got : Message)
        × (carry e hops rs own (some ev1) ≡ some rs1)
        × (exchange e hops rs1 own (some ev2) ≡ some (rs2, some (udp_sent own (done_bytes id))))
        × ((from : SockAddr)
            → establish_hop e id p answer (length ks) (arrived from (done_bytes id))
              ≡ ok (after_round p from ev1 ev2, got))
        × IsRoute e (IsLink e k port) own id hops rs2 ks
  unfolding establish_hop
  establish_hop-IsLink p answer id port ks k own hops rs fresh has key next to small low room =
      let a = p.sock_parent.send_to_address in
      let (m1, made1, tor1) =
        key_message_lem e laws p id ks k (HasKeys-front p.tor_cct_hops ks k has)
          (HasKeys-last p.tor_cct_hops ks k has) key.size (omega arith) in
      let ev1 =
        udp_sent a
          (tor_bytes fake_diffie_hellman (id / 256 % 256) (id % 256) (wrap e ks k.key_text)) in
      let p1 = record p { trace = ev1 ∷ p.trace } in
      let (m2, made2, tor2) =
        extend_message_lem e laws p1 id (length ks) port (ks ++ k ∷ []) has
          (omega (arith, length-append ks (k ∷ []))) next
          (omega (arith, length-append ks (k ∷ []))) in
      let inner = port % 256 ∷ port / 256 % 256 ∷ [] in
      let tor3 =
        subst (IsTor m2 enc_circuit_extend (id / 256 % 256) (id % 256)) (wrap-append e ks k inner)
          tor2 in
      let ev2 =
        udp_sent a
          (tor_bytes enc_circuit_extend (id / 256 % 256) (id % 256) (wrap e ks (seal e k inner))) in
      let (rs1, carried, keyed) =
        carry-IsKeyed e laws hops rs ks k.key_text own a id fresh small key.size (omega arith) to in
      let keyed1 =
        subst (λ k'. IsRoute e (IsKeyed e k') own id hops rs1 ks) (key_from_proxy-IsKey_eq e k key)
          keyed in
      let (rs2, exchanged, linked) =
        exchange-IsLink e laws hops rs1 ks k (port % 256) (port / 256 % 256) own a id keyed1 small
          room to in
      (
        ev1,
        ev2,
        rs1,
        rs2,
        record { msg = place answer.msg 0 (done_bytes id); actual_length = length (done_bytes id) },
        carried,
        exchanged,
        (λ from. >>=-ok _ _ made1 (
            >>=-ok _ _
              (sends_tor p tor1 (omega (arith, length-wrap e laws ks k.key_text, key.size)))
              (>>=-ok _ _ made2 (
                >>=-ok _ _
                  (sends_tor p1 tor3 (
                    omega
                      (arith, length-wrap e laws ks (seal e k inner), length-seal e laws k inner)))
                  (>>=-ok _ _ (receive_message_lem _ answer from (done_bytes id) (omega arith)) (
                    rw
                      (eq→== id (htons (load16 (place answer.msg 0 (done_bytes id)) 21))
                        (omega arith))
                      refl)))))),
        subst (λ q. IsRoute e (IsLink e k q) own id hops rs2 ks) (omega arith) linked,
      )
