-- ===== src/Circuit/Backward.antt =====
-- A reply on its way back through a circuit of stage 6.
use torupload.Base.{
  eq→==, length, ℕ, ◌+◌, ◌*◌, ◌/◌, ◌%◌, ◌≤◌, ◌≡◌, refl, sym, ◌∙◌, inr, some, List, [], ◌∷◌, ◌++◌,
  arith, ap,
}
use mathlib.Core.List.{reverse, reverse-cons}
use torupload.Aes.{IsAes}
use torupload.Machine.{Machine}
use torupload.Key.{MyKey}
use torupload.Key.RoundTrip.{seal, length-seal}
use torupload.Onion.Peel.{wrap}
use torupload.Socket.{SockAddr, arrived}
use torupload.Trace.{udp_sent}
use torupload.Router.State.{Router, relay_data_bwd_enc}
use torupload.Router.Wrap.Bytes.{tor_bytes}
use torupload.Router.Relay6.Layers.{relay_this_stuff6_backward}
use torupload.Router.Handler.{handle, from_udp}
use torupload.Router.Handler.Stage6.{noticed, arrival-IsTor, handle-relay}
use torupload.Circuit.{Node, travel, newest_of}
use torupload.Circuit.Forward.{HoldsKey}

-- The layers that the routers put on one after the other, the first key's innermost.
abbrev pub coats : Machine → List MyKey → List ℕ → List ℕ
coats e [] xs = xs
coats e (k ∷ ks) xs = coats e ks (seal e k xs)

wrap-append :
    (e : Machine) (ks bs : List MyKey) (xs : List ℕ)
    → wrap e (ks ++ bs) xs ≡ wrap e ks (wrap e bs xs)
wrap-append e [] bs xs = refl
wrap-append e (k ∷ ks) bs xs = ap (seal e k) (wrap-append e ks bs xs)

-- They are those of the keys in the opposite order.
pub coats-wrap :
    (e : Machine) (ks : List MyKey) (xs : List ℕ) → coats e ks xs ≡ wrap e (reverse ks) xs
coats-wrap e [] xs = refl
coats-wrap e (k ∷ ks) xs =
    coats-wrap e ks (seal e k xs)
    ∙ sym (ap (λ l. wrap e l xs) (reverse-cons k ks) ∙ wrap-append e (reverse ks) (k ∷ []) xs)

pub length-coats :
    (e : Machine)
    → IsAes e.aes
    → (ks : List MyKey) (xs : List ℕ) → length (coats e ks xs) ≤ length xs + 16 * length ks
length-coats e laws [] xs = omega arith
length-coats e laws (k ∷ ks) xs =
    omega (arith, length-coats e laws ks (seal e k xs), length-seal e laws k xs)

-- Every router holds its key, and has the next one for its requester, the last one the proxy.
abbrev pub IsWayBack : Machine → SockAddr → List Node → List MyKey → SockAddr → Type 0
IsWayBack e to [] [] proxy = to ≡ proxy
IsWayBack e to [] (k ∷ ks) proxy = ⊥
IsWayBack e to (n ∷ nodes) [] proxy = ⊥
IsWayBack e to (n ∷ nodes) (k ∷ ks) proxy =
    HoldsKey e n.router k
    × (to.sin_port ≡ n.address.sin_port)
    × IsWayBack e n.router.entry.circuit_requester_addr nodes ks proxy

module _ (e : Machine) (laws : IsAes e.aes) where
  handle_back :
      (r : Router) (from : SockAddr) (l h : ℕ) (xs : List ℕ) (k : MyKey)
      → HoldsKey e r k
      → 23 + length xs + 16 ≤ 500
      → newest_of (handle e r (from_udp (arrived from (tor_bytes relay_data_bwd_enc l h xs))))
        ≡ some (
            udp_sent r.entry.circuit_requester_addr (
              tor_bytes relay_data_bwd_enc
                (r.entry.given_circuit_id / 256 % 256)
                (r.entry.given_circuit_id % 256)
                (seal e k xs)))
  handle_back r from l h xs k holds room = ap newest_of (
      handle-relay e r from relay_data_bwd_enc l h xs holds.stage (omega arith) (inr refl) (
        relay_this_stuff6_backward e laws (noticed r from relay_data_bwd_enc l h xs) xs k holds.key
          (arrival-IsTor r relay_data_bwd_enc l h xs) (omega arith)))

  -- A backward message is sent to the first of `nodes`, each of which holds its key of `ks` and is
  -- the requester of the node before it, the proxy of the last; the layers fit (`23 + length xs +
  -- 16 * length ks <= 500`). It reaches the proxy's address with one more layer for each node, put
  -- on in the order of the nodes.
  pub travel-coats :
      (nodes : List Node) (ks : List MyKey) (from to proxy : SockAddr) (l h : ℕ) (xs : List ℕ)
      → IsWayBack e to nodes ks proxy
      → 23 + length xs + 16 * length ks ≤ 500
      → (l' h' : ℕ) × (travel e nodes from (udp_sent to (tor_bytes relay_data_bwd_enc l h xs))
          ≡ some (udp_sent proxy (tor_bytes relay_data_bwd_enc l' h' (coats e ks xs))))
  unfolding travel
  travel-coats [] [] from to proxy l h xs way room =
      (l, h, ap (λ a. some (udp_sent a (tor_bytes relay_data_bwd_enc l h xs))) way)
  travel-coats [] (k ∷ ks) from to proxy l h xs way room = absurd way
  travel-coats (n ∷ nodes) [] from to proxy l h xs way room = absurd way
  travel-coats (n ∷ nodes) (k ∷ ks) from to proxy l h xs way room =
      let (l', h', rest) =
        travel-coats nodes ks n.address n.router.entry.circuit_requester_addr proxy
          (n.router.entry.given_circuit_id / 256 % 256) (n.router.entry.given_circuit_id % 256)
          (seal e k xs) way.2 (omega (arith, length-seal e laws k xs)) in
      (
        l',
        h',
        rw
            (
              eq→== to.sin_port n.address.sin_port way.1,
              handle_back n.router from l h xs k way.0 (omega arith),
            )
            rest,
      )
