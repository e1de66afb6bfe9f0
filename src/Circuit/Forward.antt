-- ===== src/Circuit/Forward.antt =====
-- A packet on its way out through a circuit of stage 6.
use torupload.Base.{
  length, get_or, ℕ, ◌+◌, ◌*◌, ◌/◌, ◌%◌, ◌≤◌, ◌≡◌, refl, ◌≢◌, inl, some, List, [], ◌∷◌, arith, ap,
  sym, subst, eq→==,
}
use torupload.Message.{load32, slice}
use torupload.Aes.{IsAes}
use torupload.Machine.{Machine}
use torupload.Key.{MyKey}
use torupload.Key.RoundTrip.{IsKey, seal, length-seal}
use torupload.Onion.Peel.{wrap, length-wrap}
use torupload.Socket.{SockAddr, arrived}
use torupload.Trace.{Event, udp_sent, raw_sent}
use torupload.Router.State.{Router, relay_data_fwd_enc}
use torupload.Router.Wrap.Bytes.{tor_bytes}
use torupload.Router.Relay6.Layers.{relay_this_stuff6_forward}
use torupload.Router.Relay6.Exit.{relay_this_stuff6_exit}
use torupload.Router.Handler.{handle, from_udp}
use torupload.Router.Handler.Stage6.{noticed, arrival-IsTor, handle-relay}
use torupload.Circuit.{Node, travel, newest_of}

-- A router of stage 6 that holds this key.
pub record HoldsKey (e : Machine) (r : Router) (k : MyKey) : Type 0 where
  pub stage : r.stage ≡ 6
  pub key : r.entry.ptr_to_key_for_cct ≡ some k
  pub schedules : IsKey e k

-- Every router holds its key and has the next one's port, the last one 0xffff.
abbrev pub IsPath : Machine → List Node → List MyKey → Type 0
IsPath e [] ks = ⊥
IsPath e (n ∷ nodes) [] = ⊥
IsPath e (n ∷ []) (k ∷ []) =
    HoldsKey e n.router k × (n.router.entry.next_hop_rtr_for_circuit.sin_port ≡ 0xffff)
IsPath e (n ∷ []) (k ∷ k' ∷ ks) = ⊥
IsPath e (n ∷ n' ∷ nodes) (k ∷ ks) =
    HoldsKey e n.router k
    × (n.router.entry.next_hop_rtr_for_circuit.sin_port ≡ n'.address.sin_port)
    × (n'.address.sin_port ≢ 0xffff)
    × IsPath e (n' ∷ nodes) ks

-- What leaves for the world: 64 bytes behind the IP header, to the packet's destination.
abbrev pub ping_of : List ℕ → Event
ping_of packet =
    raw_sent (load32 (λ i. get_or packet i 0) 16) (slice (λ i. get_or packet i 0) 20 64)

module _ (e : Machine) (laws : IsAes e.aes) (packet : List ℕ) (size : length packet ≡ 84)
    (blank : load32 (λ i. get_or packet i 0) 12 ≡ 0) where
  handle_last :
      (r : Router) (from : SockAddr) (l h : ℕ) (k : MyKey)
      → HoldsKey e r k
      → r.entry.next_hop_rtr_for_circuit.sin_port ≡ 0xffff
      → newest_of (
          handle e r (from_udp (arrived from (tor_bytes relay_data_fwd_enc l h (seal e k packet)))))
        ≡ some (ping_of packet)
  handle_last r from l h k holds last = ap newest_of (
      handle-relay e r from relay_data_fwd_enc l h (seal e k packet) holds.stage
        (omega (arith, length-seal e laws k packet)) (inl refl)
        (relay_this_stuff6_exit e laws (noticed r from relay_data_fwd_enc l h (seal e k packet))
          packet k holds.key holds.schedules last
          (arrival-IsTor r relay_data_fwd_enc l h (seal e k packet))
          (omega (arith, length-seal e laws k packet)) size blank))

  handle_middle :
      (r : Router) (from : SockAddr) (l h : ℕ) (xs : List ℕ) (k : MyKey)
      → HoldsKey e r k
      → r.entry.next_hop_rtr_for_circuit.sin_port ≢ 0xffff
      → 23 + length xs + 16 ≤ 500
      → newest_of
          (handle e r (from_udp (arrived from (tor_bytes relay_data_fwd_enc l h (seal e k xs)))))
        ≡ some (
            udp_sent r.entry.next_hop_rtr_for_circuit (
              tor_bytes relay_data_fwd_enc
                (r.entry.my_circuit_id / 256 % 256)
                (r.entry.my_circuit_id % 256)
                xs))
  handle_middle r from l h xs k holds next room = ap newest_of (
      handle-relay e r from relay_data_fwd_enc l h (seal e k xs) holds.stage
        (omega (arith, length-seal e laws k xs)) (inl refl)
        (relay_this_stuff6_forward e laws (noticed r from relay_data_fwd_enc l h (seal e k xs)) xs k
          holds.key holds.schedules next (arrival-IsTor r relay_data_fwd_enc l h (seal e k xs))
          (omega (arith, length-seal e laws k xs))))

  -- A packet of 84 bytes with a blank source, under one layer for each router of a path of stage 6,
  -- is sent to the first router's port, and the layers fit (`107 + 16 * length ks <= 500`). The
  -- routers carry it, each taking off its layer, and the last one sends the 64 bytes behind the IP
  -- header to the packet's destination.
  pub travel-wrap :
      (n : Node) (rest : List Node) (ks : List MyKey) (from to : SockAddr) (l h : ℕ)
      → IsPath e (n ∷ rest) ks
      → 107 + 16 * length ks ≤ 500
      → to.sin_port ≡ n.address.sin_port
      → travel e (n ∷ rest) from (udp_sent to (tor_bytes relay_data_fwd_enc l h (wrap e ks packet)))
        ≡ some (ping_of packet)
  unfolding travel
  travel-wrap n rest [] from to l h path room port = absurd path
  travel-wrap n [] (k ∷ []) from to l h path room port =
      rw (eq→== to.sin_port n.address.sin_port port, handle_last n.router from l h k path.0 path.1)
  travel-wrap n [] (k ∷ k' ∷ ks) from to l h path room port = absurd path
  travel-wrap n (n' ∷ rest) (k ∷ ks) from to l h path room port =
      rw
        (
          eq→== to.sin_port n.address.sin_port port,
          handle_middle n.router from l h (wrap e ks packet) k path.0
              (subst (λ p. p ≢ 0xffff) (sym path.1) path.2)
              (omega (arith, length-wrap e laws ks packet)),
        )
        (travel-wrap n' rest ks n.address n.router.entry.next_hop_rtr_for_circuit
          (n.router.entry.my_circuit_id / 256 % 256) (n.router.entry.my_circuit_id % 256) path.3
          (omega arith) path.1)
