-- ===== src/Circuit/Plain.antt =====
-- A circuit of stage 5. This file has the requests and answers on their way over the routers while
-- the proxy builds it.
pub mod Round
pub mod Build
pub mod Whole
pub mod Relay
pub mod Data
pub mod Journey
pub mod Back
pub mod Reply
pub mod Pong
use torupload.Message.{htons}
use torupload.Circuit.{newest}
use torupload.Base.Outcome.{ok}
use torupload.Router.Wrap.Bytes.{tor_bytes}
use torupload.Trace.{udp_sent}
use torupload.Router.Handler.{handle, from_udp}
use torupload.Socket.{SockAddr, arrived}
use torupload.Machine.{Machine}
use torupload.Base.{
  ℕ, ◌+◌, ◌*◌, ◌/◌, ◌%◌, ◌<◌, ◌≡◌, refl, sym, ap₂, ◌∙◌, inl, inr, true, false, some, List, [], ◌∷◌,
  arith, subst, ap,
}
use torupload.Circuit.Extend.{exchange}
use torupload.Circuit.Extend.Route.{and_then-some, deliver_lem, first_port}
use torupload.Router.Contract.{View, view, own_id}
use torupload.Router.State.{Router, circuit_extend, circuit_extend_done}
use torupload.Router.Handler.Stage5.{reached, handle-circuit5}
use torupload.Router.Handler.Stage6.{arrival, arrival-IsTor}
use torupload.Router.Create.Requests.{circuit_message-accept_extend, circuit_message-forward_extend}
use torupload.Router.Create.Passing.{circuit_message-forward_extend_done}

-- A router that no request has reached.
pub record IsOpen (v : View) : Type 0 where
  pub stage : v.stage ≡ 5
  pub first : v.to_forward ≡ false

-- One that has taken a request from `prev` and under the identifier `id`.
pub record IsJoint (port : ℕ) (prev : SockAddr) (id : ℕ) (v : View) : Type 0 where
  pub stage : v.stage ≡ 5
  pub later : v.to_forward ≡ true
  pub requester : v.entry.circuit_requester_addr ≡ prev
  pub given : v.entry.given_circuit_id ≡ id
  pub next : v.entry.next_hop_rtr_for_circuit.sin_port ≡ port
  pub own : v.entry.my_circuit_id ≡ own_id v id

-- The routers at these addresses have taken requests, each for the one behind it, and of the last
-- one, behind them, `Last` holds.
abbrev pub IsChain :
    (SockAddr → ℕ → View → Type 0) → SockAddr → ℕ → List SockAddr → List Router → Type 0
IsChain Last prev id [] rs = ⊥
IsChain Last prev id (a ∷ hops) [] = ⊥
IsChain Last prev id (a ∷ []) (r ∷ []) = Last prev id (view r)
IsChain Last prev id (a ∷ []) (r ∷ r' ∷ rs) = ⊥
IsChain Last prev id (a ∷ a' ∷ hops) (r ∷ rs) =
    IsJoint a'.sin_port prev id (view r) × IsChain Last a r.entry.my_circuit_id (a' ∷ hops) rs

-- The identifier under which the last router is reached.
abbrev pub last_id : ℕ → List Router → ℕ
last_id id [] = id
last_id id (r ∷ []) = id
last_id id (r ∷ r' ∷ rs) = last_id r.entry.my_circuit_id (r' ∷ rs)

module _ (e : Machine) where
  request_passed :
      (r : Router) (prev : SockAddr) (id port : ℕ) (p1 p2 : ℕ)
      → IsJoint port prev id (view r)
      → (r1 : Router) × (a : SockAddr) × (handle e r (
            from_udp
              (arrived prev (tor_bytes circuit_extend (id / 256 % 256) (id % 256) (p1 ∷ p2 ∷ []))))
          ≡ ok r1)
        × (newest r1.trace
            ≡ some (
                udp_sent a (
                  tor_bytes circuit_extend
                    (r.entry.my_circuit_id / 256 % 256)
                    (r.entry.my_circuit_id % 256)
                    (p1 ∷ p2 ∷ []))))
        × (a.sin_port ≡ port)
        × (view r1 ≡ view r)
  request_passed r prev id port p1 p2 joint =
      let l = id / 256 % 256 in
      let h = id % 256 in
      let bytes = tor_bytes circuit_extend l h (p1 ∷ p2 ∷ []) in
      let (r1, m1, run, out, same) =
        circuit_message-forward_extend (reached r prev bytes) (arrival r bytes) l h (p1 ∷ p2 ∷ [])
          joint.later (arrival-IsTor r circuit_extend l h (p1 ∷ p2 ∷ [])) (omega arith) in
      (
        record r1 { r_message = m1 },
        r.entry.next_hop_rtr_for_circuit,
        handle-circuit5 e r prev circuit_extend l h (p1 ∷ p2 ∷ []) joint.stage (omega arith)
            (inl refl) run,
        out
            ∙ ap₂
                (λ low high. some (
                  udp_sent r.entry.next_hop_rtr_for_circuit
                    (tor_bytes circuit_extend low high (p1 ∷ p2 ∷ []))))
                (omega arith) (omega arith),
        joint.next,
        same,
      )

  request_taken :
      (r : Router) (prev : SockAddr) (id : ℕ) (p1 p2 : ℕ)
      → IsOpen (view r)
      → id < 65536
      → (r1 : Router) × (handle e r (
            from_udp
              (arrived prev (tor_bytes circuit_extend (id / 256 % 256) (id % 256) (p1 ∷ p2 ∷ []))))
          ≡ ok r1)
        × (newest r1.trace
            ≡ some (udp_sent prev (tor_bytes circuit_extend_done (id / 256 % 256) (id % 256) [])))
        × IsJoint (p1 + 256 * p2) prev id (view r1)
  request_taken r prev id p1 p2 unused small =
      let l = id / 256 % 256 in
      let h = id % 256 in
      let bytes = tor_bytes circuit_extend l h (p1 ∷ p2 ∷ []) in
      let given : htons (l + 256 * h) ≡ id = omega arith in
      let (r1, m1, run, out, seen) =
        circuit_message-accept_extend (reached r prev bytes) (arrival r bytes) l h p1 p2
          unused.first (arrival-IsTor r circuit_extend l h (p1 ∷ p2 ∷ [])) (omega arith) in
      (
        record r1 { r_message = m1 },
        handle-circuit5 e r prev circuit_extend l h (p1 ∷ p2 ∷ []) unused.stage (omega arith)
            (inl refl) run,
        out,
        subst (IsJoint (p1 + 256 * p2) prev id) (sym seen) (record {
          stage = unused.stage;
          later = refl;
          requester = refl;
          given = given;
          next = refl;
          own = ap (λ i. own_id (view r) i) given;
        }),
      )

  answer_returned :
      (r : Router) (from prev : SockAddr) (id port l h : ℕ)
      → IsJoint port prev id (view r)
      → (r1 : Router) × (handle e r (from_udp (arrived from (tor_bytes circuit_extend_done l h [])))
          ≡ ok r1)
        × (newest r1.trace ≡ some (udp_sent prev (tor_bytes circuit_extend_done l h [])))
        × (view r1 ≡ view r)
  answer_returned r from prev id port l h joint =
      let bytes = tor_bytes circuit_extend_done l h [] in
      (
        _,
        handle-circuit5 e r from circuit_extend_done l h [] joint.stage (omega arith) (inr refl) (
            circuit_message-forward_extend_done (reached r from bytes)
              (arrival-IsTor r circuit_extend_done l h [])),
        ap (λ a. some (udp_sent a bytes)) joint.requester,
        refl,
      )

  IsChain-cons :
      (Last : SockAddr → ℕ → View → Type 0) (prev a a' : SockAddr) (id : ℕ) (hops : List SockAddr)
      (r r1 : Router) (rs : List Router)
      → view r1 ≡ view r
      → IsJoint a'.sin_port prev id (view r)
      → IsChain Last a r.entry.my_circuit_id (a' ∷ hops) rs
      → IsChain Last prev id (a ∷ a' ∷ hops) (r1 ∷ rs)
  IsChain-cons Last prev a a' id hops r r1 rs same joint chain =
      subst
        (λ v. IsJoint a'.sin_port prev id v × IsChain Last a v.entry.my_circuit_id (a' ∷ hops) rs)
        (sym same) (joint, chain)

  -- A CIRCUIT_EXTEND of stage 5 over a chain of routers that have taken requests, each for the one
  -- behind it, but for the last, which no request has reached; it is sent to the first one's port,
  -- under the identifier `id`, which has 16 bits, in network order. The routers pass it on, each
  -- under its own circuit identifier, the last one takes it and is a link of the chain from then
  -- on, with the port that the request names, and the answer comes back over all of them to the
  -- sender. The answer has the identifier under which the last router was reached, not `id`.
  pub exchange-IsJoint :
      (hops : List SockAddr) (rs : List Router) (p1 p2 : ℕ) (prev to : SockAddr) (id : ℕ)
      → IsChain (λ a i. IsOpen) prev id hops rs
      → id < 65536
      → to.sin_port ≡ first_port hops
      → (rs1 : List Router) × (exchange e hops rs prev (
            some
              (udp_sent to (tor_bytes circuit_extend (id / 256 % 256) (id % 256) (p1 ∷ p2 ∷ []))))
          ≡ some (
            rs1,
            some (
                udp_sent prev (
                  tor_bytes circuit_extend_done
                    (last_id id rs / 256 % 256)
                    (last_id id rs % 256)
                    [])),
          ))
        × IsChain (IsJoint (p1 + 256 * p2)) prev id hops rs1
  unfolding exchange
  exchange-IsJoint [] rs p1 p2 prev to id chain small port = absurd chain
  exchange-IsJoint (a ∷ hops) [] p1 p2 prev to id chain small port = absurd chain
  exchange-IsJoint (a ∷ []) (r ∷ []) p1 p2 prev to id chain small port =
      let (r1, run, out, joint) = request_taken r prev id p1 p2 chain small in
      (
        r1 ∷ [],
        and_then-some _ _ (deliver_lem e a prev to r r1 _ port run)
            (ap (λ ev. some (r1 ∷ [], ev)) out),
        joint,
      )
  exchange-IsJoint (a ∷ []) (r ∷ r' ∷ rs) p1 p2 prev to id chain small port = absurd chain
  exchange-IsJoint (a ∷ a' ∷ hops) (r ∷ []) p1 p2 prev to id chain small port = absurd chain.1
  exchange-IsJoint (a ∷ a' ∷ hops) (r ∷ r' ∷ rs) p1 p2 prev to id (joint, behind) small port =
      let (r1, next, run, out, there, same) = request_passed r prev id a'.sin_port p1 p2 joint in
      let (rs1, goes, chain1) =
        exchange-IsJoint (a' ∷ hops) (r' ∷ rs) p1 p2 a next r.entry.my_circuit_id behind
          (omega (arith, joint.own)) there in
      let i = last_id r.entry.my_circuit_id (r' ∷ rs) in
      let joint1 = subst (IsJoint a'.sin_port prev id) (sym same) joint in
      let (r2, run2, out2, same2) =
        answer_returned r1 a' prev id a'.sin_port (i / 256 % 256) (i % 256) joint1 in
      (
        r2 ∷ rs1,
        and_then-some _ _ (deliver_lem e a prev to r r1 _ port run) (
            and_then-some _ _ (ap (exchange e (a' ∷ hops) (r' ∷ rs) a) out ∙ goes) (
              and_then-some _ _ (deliver_lem e a a' a r1 r2 _ refl run2)
                (ap (λ ev. some (r2 ∷ rs1, ev)) out2))),
        IsChain-cons (IsJoint (p1 + 256 * p2)) prev a a' id hops r r2 rs1 (same2 ∙ same) joint
            chain1,
      )
