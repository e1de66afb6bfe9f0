-- ===== src/Circuit/Extend/Route.antt =====
-- Keys and extension requests over a whole chain of routers.
use torupload.Circuit.Extend.Links.{
  handle-done_returned, handle-key_taken, handle-key_passed, handle-extend_taken,
  handle-extend_passed,
}
use torupload.Key.RoundTrip.{seal, length-seal}
use torupload.Onion.Peel.{wrap, length-wrap}
use torupload.Base.Outcome.{ok}
use torupload.Router.Wrap.Bytes.{tor_bytes}
use torupload.Trace.{udp_sent}
use torupload.Key.{MyKey, key_from_proxy}
use torupload.Router.Contract.{View, view}
use torupload.Router.Handler.{handle, from_udp}
use torupload.Router.State.{
  fake_diffie_hellman, Router, enc_circuit_extend, enc_circuit_extend_done,
}
use torupload.Aes.{IsAes}
use torupload.Socket.{SockAddr, arrived}
use torupload.Machine.{Machine}
use torupload.Base.{
  eq→==, length, ℕ, ◌+◌, ◌*◌, ◌/◌, ◌%◌, ◌≤◌, ◌<◌, ◌≡◌, refl, sym, ap, ◌∙◌, subst, Option, some,
  List, [], ◌∷◌, arith,
}
use torupload.Circuit.Extend.{
  IsFresh, IsKeyed, IsLink, IsRoute, deliver, carry, exchange, and_then, router_of,
}

-- The port of the first of these addresses.
abbrev pub first_port : List SockAddr → ℕ
first_port [] = 0
first_port (a ∷ hops) = a.sin_port

pub deliver_lem :
    (e : Machine) (a from to : SockAddr) (r r1 : Router) (bytes : List ℕ)
    → to.sin_port ≡ a.sin_port
    → handle e r (from_udp (arrived from bytes)) ≡ ok r1
    → deliver e a r from (some (udp_sent to bytes)) ≡ some r1
deliver_lem e a from to r r1 bytes port run =
    rw (eq→== to.sin_port a.sin_port port) (ap router_of run)

-- A step of a chain, and what follows it.
pub and_then-some {ℓ κ} :
    {A : Type ℓ} {B : Type κ} (o : Option A) (f : A → Option B) {a : A} {b : Option B}
    → o ≡ some a
    → f a ≡ b
    → and_then o f ≡ b
and_then-some o f is rest = ap (λ x. and_then x f) is ∙ rest

module _ (e : Machine) (laws : IsAes e.aes) where
  -- The first router of a chain has not changed its view, and the chain behind it is as said.
  pub IsRoute-cons :
      (Last : SockAddr → ℕ → View → Type 0) (prev a a' : SockAddr) (id : ℕ) (hops : List SockAddr)
      (r r1 : Router) (rs : List Router) (k : MyKey) (ks : List MyKey)
      → view r1 ≡ view r
      → IsLink e k a'.sin_port prev id (view r)
      → a'.sin_port < 0xffff
      → IsRoute e Last a r.entry.my_circuit_id (a' ∷ hops) rs ks
      → IsRoute e Last prev id (a ∷ a' ∷ hops) (r1 ∷ rs) (k ∷ ks)
  IsRoute-cons Last prev a a' id hops r r1 rs k ks same link small route =
      subst
        (λ v.
          IsLink e k a'.sin_port prev id v
          × (a'.sin_port < 0xffff)
          × IsRoute e Last a v.entry.my_circuit_id (a' ∷ hops) rs ks)
        (sym same) (link, small, route)

  -- A key under one layer for each router of the chain but the last, which gets it.
  pub carry-IsKeyed :
      (hops : List SockAddr) (rs : List Router) (ks : List MyKey) (text : List ℕ)
      (prev to : SockAddr) (id : ℕ)
      → IsRoute e (λ p i. IsFresh) prev id hops rs ks
      → id < 65536
      → length text ≡ 16
      → 39 + 16 * length ks ≤ 500
      → to.sin_port ≡ first_port hops
      → (rs1 : List Router) × (carry e hops rs prev (
            some (
              udp_sent to
                (tor_bytes fake_diffie_hellman (id / 256 % 256) (id % 256) (wrap e ks text))))
          ≡ some rs1)
        × IsRoute e (IsKeyed e (key_from_proxy e text)) prev id hops rs1 ks
  unfolding carry
  carry-IsKeyed [] rs ks text prev to id route small size room port = absurd route
  carry-IsKeyed (a ∷ hops) [] ks text prev to id route small size room port = absurd route
  carry-IsKeyed (a ∷ []) (r ∷ []) [] text prev to id route small size room port =
      let (r1, run, keyed) = handle-key_taken e laws r prev id text route small size in
      (r1 ∷ [], and_then-some _ _ (deliver_lem e a prev to r r1 _ port run) refl, keyed)
  carry-IsKeyed (a ∷ []) (r ∷ []) (k ∷ ks) text prev to id route small size room port = absurd route
  carry-IsKeyed (a ∷ []) (r ∷ r' ∷ rs) ks text prev to id route small size room port = absurd route
  carry-IsKeyed (a ∷ a' ∷ hops) (r ∷ rs) [] text prev to id route small size room port =
      absurd route
  carry-IsKeyed (a ∷ a' ∷ hops) (r ∷ rs) (k ∷ ks) text prev to id (link, low, behind) small size
        room port =
      let (r1, next, run, sent, there, same) =
        handle-key_passed e laws r prev id a'.sin_port (wrap e ks text) k link (omega arith)
          (omega (arith, length-wrap e laws ks text)) in
      let (rs1, goes, route1) =
        carry-IsKeyed (a' ∷ hops) rs ks text a next r.entry.my_circuit_id behind link.own size
          (omega arith) there in
      (
        r1 ∷ rs1,
        and_then-some _ _ (deliver_lem e a prev to r r1 _ port run)
            (and_then-some _ _ (ap (carry e (a' ∷ hops) rs a) sent ∙ goes) refl),
        IsRoute-cons (IsKeyed e (key_from_proxy e text)) prev a a' id hops r r1 rs1 k ks same link
            low route1,
      )

  -- An extension request under one layer for each router of the chain, and its answer.
  pub exchange-IsLink :
      (hops : List SockAddr) (rs : List Router) (ks : List MyKey) (k : MyKey) (p1 p2 : ℕ)
      (prev to : SockAddr) (id : ℕ)
      → IsRoute e (IsKeyed e k) prev id hops rs ks
      → id < 65536
      → 57 + 16 * length ks ≤ 500
      → to.sin_port ≡ first_port hops
      → (rs1 : List Router) × (exchange e hops rs prev (
            some (
              udp_sent to (
                tor_bytes enc_circuit_extend
                  (id / 256 % 256)
                  (id % 256)
                  (wrap e ks (seal e k (p1 ∷ p2 ∷ []))))))
          ≡ some (
            rs1,
            some (udp_sent prev (tor_bytes enc_circuit_extend_done (id / 256 % 256) (id % 256) [])),
          ))
        × IsRoute e (IsLink e k (p1 + 256 * p2)) prev id hops rs1 ks
  unfolding exchange
  exchange-IsLink [] rs ks k p1 p2 prev to id route small room port = absurd route
  exchange-IsLink (a ∷ hops) [] ks k p1 p2 prev to id route small room port = absurd route
  exchange-IsLink (a ∷ []) (r ∷ []) [] k p1 p2 prev to id route small room port =
      let (r1, run, sent, link) = handle-extend_taken e laws r prev id p1 p2 k route small in
      (
        r1 ∷ [],
        and_then-some _ _ (deliver_lem e a prev to r r1 _ port run)
            (ap (λ ev. some (r1 ∷ [], ev)) sent),
        link,
      )
  exchange-IsLink (a ∷ []) (r ∷ []) (k' ∷ ks) k p1 p2 prev to id route small room port =
      absurd route
  exchange-IsLink (a ∷ []) (r ∷ r' ∷ rs) ks k p1 p2 prev to id route small room port = absurd route
  exchange-IsLink (a ∷ a' ∷ hops) (r ∷ rs) [] k p1 p2 prev to id route small room port =
      absurd route
  exchange-IsLink (a ∷ a' ∷ hops) (r ∷ rs) (k' ∷ ks) k p1 p2 prev to id (link, low, behind) small
        room port =
      let inner = wrap e ks (seal e k (p1 ∷ p2 ∷ [])) in
      let (r1, next, run, sent, there, same) =
        handle-extend_passed e laws r prev id a'.sin_port inner k' link (
          omega (
            arith,
            length-wrap e laws ks (seal e k (p1 ∷ p2 ∷ [])),
            length-seal e laws k (p1 ∷ p2 ∷ []),
          )) in
      let (rs1, goes, route1) =
        exchange-IsLink (a' ∷ hops) rs ks k p1 p2 a next r.entry.my_circuit_id behind link.own
          (omega arith) there in
      let link1 = subst (IsLink e k' a'.sin_port prev id) (sym same) link in
      let (r2, run2, sent2, same2) =
        handle-done_returned e laws r1 a' prev id a'.sin_port k' link1 in
      let own : r.entry.my_circuit_id ≡ r1.entry.my_circuit_id =
        ap (λ v. v.entry.my_circuit_id) (sym same) in
      (
        r2 ∷ rs1,
        and_then-some _ _ (deliver_lem e a prev to r r1 _ port run) (
            and_then-some _ _ (ap (exchange e (a' ∷ hops) rs a) sent ∙ goes) (
              and_then-some _ _
                (ap
                    (λ i. deliver e a r1 a' (
                      some (
                        udp_sent a
                          (tor_bytes enc_circuit_extend_done (i / 256 % 256) (i % 256) []))))
                    own
                  ∙ deliver_lem e a a' a r1 r2 _ refl run2)
                (ap (λ ev. some (r2 ∷ rs1, ev)) sent2))),
        IsRoute-cons (IsLink e k (p1 + 256 * p2)) prev a a' id hops r r2 rs1 k' ks (same2 ∙ same)
            link low route1,
      )
