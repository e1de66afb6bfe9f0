-- ===== src/Circuit/Plain/Build.antt =====
-- The loop of `Build_An_Circuit` against the routers of a circuit of stage 5.
use torupload.Circuit.Extend.Plan.{happen}
use torupload.Proxy.State.{Proxy}
use torupload.Proxy.Build.{extend_loop, rounds_of}
use torupload.Circuit.Plain.Round.{
  request_bytes, sent_events, SamePlan, extend_circuit_lem, create_extend_cct_message-end,
  create_extend_cct_message-router, create_extend_cct_message-router, SamePlan-trans,
}
use torupload.Circuit.Extend.Route.{first_port, and_then-some}
use torupload.Message.{htons, Message}
use torupload.Router.Wrap.Bytes.{tor_bytes}
use torupload.Circuit.Plain.{IsOpen, IsChain, IsJoint, exchange-IsJoint}
use torupload.Circuit.Extend.{and_then, exchange}
use torupload.Router.State.{Router, circuit_extend_done, circuit_extend}
use torupload.Router.Contract.{View, view}
use torupload.Trace.{Event, udp_sent}
use torupload.Base.Outcome.{Outcome, ok, >>=-ok}
use torupload.Socket.{SockAddr, address_of_router, UdpSocket, Received}
use torupload.Machine.{Machine}
use torupload.Base.{
  ℕ, ◌+◌, ◌/◌, ◌%◌, ◌<◌, ◌≡◌, ◌≢◌, refl, sym, ap, ap₂, ◌∙◌, subst, List, [], ◌∷◌, ◌++◌,
  append_assoc, append-nil, arith, All, Option, none, some, map, fun_ext,
}

-- A router that the proxy has selected and that is still to come.
pub record Next : Type 0 where
  pub number : ℕ
  pub address : SockAddr
  pub router : Router

abbrev pub addresses_next : List Next → List SockAddr
addresses_next rest = map (λ h. h.address) rest

-- The proxy knows where they are, and no request has reached them.
abbrev pub AreNext : (ℕ → Outcome SockAddr) → List Next → Type 0
AreNext address_of [] = Unit
AreNext address_of (h ∷ rest) =
    (h.number ≢ 0xffff)
    × (address_of h.number ≡ ok h.address)
    × (h.address.sin_port < 0xffff)
    × IsOpen (view h.router)
    × AreNext address_of rest

-- The proxy's requests, one in each round, go along the routers and are answered. Each round has
-- one router more. The result is the routers at the end, and what was sent to `own`.
abbrev pub requests :
    Machine
    → SockAddr
    → List SockAddr
    → List Router
    → List Next
    → List Event
    → Option (List Router × List (Option Event))
requests e own hops rs rest [] = none
requests e own hops rs [] (ev ∷ []) =
    and_then (exchange e hops rs own (some ev)) (λ (rs1, back). some (rs1, back ∷ []))
requests e own hops rs [] (ev1 ∷ ev2 ∷ evs) = none
requests e own hops rs (h ∷ rest) (ev ∷ evs) =
    and_then (exchange e hops rs own (some ev)) (λ (rs1, back).
      and_then (requests e own (hops ++ h.address ∷ []) (rs1 ++ h.router ∷ []) rest evs)
        (λ (rs2, backs). some (rs2, back ∷ backs)))

-- An answer to a request.
abbrev pub IsAnswer : SockAddr → Option Event → Type 0
IsAnswer own event =
    (l h : ℕ) × (event ≡ some (udp_sent own (tor_bytes circuit_extend_done l h [])))

-- A chain that is done, and a router at the port that its last one has been given.
IsChain-snoc :
    (hops : List SockAddr) (rs : List Router) (prev a' : SockAddr) (id : ℕ) (r' : Router)
    → IsChain (IsJoint a'.sin_port) prev id hops rs
    → IsOpen (view r')
    → IsChain (λ a i. IsOpen) prev id (hops ++ a' ∷ []) (rs ++ r' ∷ [])
IsChain-snoc [] rs prev a' id r' chain unused = absurd chain
IsChain-snoc (a ∷ hops) [] prev a' id r' chain unused = absurd chain
IsChain-snoc (a ∷ []) (r ∷ []) prev a' id r' chain unused = (chain, unused)
IsChain-snoc (a ∷ []) (r ∷ r2 ∷ rs) prev a' id r' chain unused = absurd chain
IsChain-snoc (a ∷ a2 ∷ hops) (r ∷ rs) prev a' id r' (joint, chain) unused =
    (joint, IsChain-snoc (a2 ∷ hops) rs a a' r.entry.my_circuit_id r' chain unused)

first_port-append :
    (Last : SockAddr → ℕ → View → Type 0) (own : SockAddr) (id : ℕ) (hops more : List SockAddr)
    (rs : List Router)
    → IsChain Last own id hops rs
    → first_port (hops ++ more) ≡ first_port hops
first_port-append Last own id [] more rs chain = absurd chain
first_port-append Last own id (a ∷ hops) more rs chain = refl

-- Of a socket, the table alone says where a router is.
pub address_of_router-senders :
    (s s' : UdpSocket) (r : ℕ)
    → s'.who_have_send_me ≡ s.who_have_send_me
    → address_of_router s' r ≡ address_of_router s r
unfolding address_of_router
address_of_router-senders s s' r same =
    ap (λ t. address_of_router (record s { who_have_send_me = t }) r) same

module _ (e : Machine) where
  -- A request of the proxy and its answer.
  request_answered :
      (hops : List SockAddr) (rs : List Router) (own to : SockAddr) (id port : ℕ)
      → IsChain (λ a i. IsOpen) own (htons id) hops rs
      → id < 65536
      → port < 65536
      → to.sin_port ≡ first_port hops
      → (rs1 : List Router) × (back : Option Event) × (exchange e hops rs own
            (some (udp_sent to (request_bytes id port)))
          ≡ some (rs1, back))
        × IsAnswer own back
        × IsChain (IsJoint port) own (htons id) hops rs1
  request_answered hops rs own to id port chain small low at =
      let (rs1, goes, joint) =
        exchange-IsJoint e hops rs (port % 256) (port / 256 % 256) own to (htons id) chain
          (omega arith) at in
      (
        rs1,
        _,
        ap (λ bytes. exchange e hops rs own (some (udp_sent to bytes)))
              (ap₂ (λ l h. tor_bytes circuit_extend l h (port % 256 ∷ port / 256 % 256 ∷ []))
                (omega arith) (omega arith))
            ∙ goes,
        (_, _, refl),
        subst (λ q. IsChain (IsJoint q) own (htons id) hops rs1) (omega arith) joint,
      )

  pub extend_loop_lem :
      (p : Proxy) (answer : Message) (id : ℕ) (own : SockAddr) (hops : List SockAddr)
      (rs : List Router) (rest : List Next) (got : ℕ → Received) (var : ℕ)
      → IsChain (λ a i. IsOpen) own (htons id) hops rs
      → id < 65536
      → AreNext (address_of_router p.sock_parent) rest
      → p.sock_parent.send_to_address.sin_port ≡ first_port hops
      → (p' : Proxy) × (evs : List Event) × (rs' : List Router) × (backs : List (Option Event))
        × (extend_loop e id p answer (rounds_of (map (λ h. h.number) rest) got var) ≡ ok p')
        × (sent_events p'.trace ≡ happen evs (sent_events p.trace))
        × (requests e own hops rs rest evs ≡ some (rs', backs))
        × All (IsAnswer own) backs
        × IsChain (IsJoint 0xffff) own (htons id) (hops ++ addresses_next rest) rs'
        × SamePlan p p'
  unfolding extend_loop
  extend_loop_lem p answer id own hops rs [] got var chain small plan to =
      let (rs1, back, goes, answered, joint) =
        request_answered hops rs own p.sock_parent.send_to_address id 0xffff chain small
          (omega arith) to in
      let (p1, answer1, runs, sends, same) =
        extend_circuit_lem e id p answer 0xffff 0xffff (got var)
          (create_extend_cct_message-end e p.sock_parent id) in
      (
        p1,
        udp_sent p.sock_parent.send_to_address (request_bytes id 0xffff) ∷ [],
        rs1,
        back ∷ [],
        >>=-ok _ _ runs refl,
        sends,
        and_then-some _ _ goes refl,
        (answered, tt),
        subst (λ hs. IsChain (IsJoint 0xffff) own (htons id) hs rs1) (sym (append-nil hops)) joint,
        same,
      )
  extend_loop_lem p answer id own hops rs (h ∷ rest) got var chain small
        (inside, known, low, new, plan) to =
      let (rs1, back, goes, answered, joint) =
        request_answered hops rs own p.sock_parent.send_to_address id h.address.sin_port chain small
          (omega arith) to in
      let (p1, answer1, runs, sends, same) =
        extend_circuit_lem e id p answer h.number h.address.sin_port (got var)
          (create_extend_cct_message-router e p.sock_parent id h.number h.address inside known) in
      let (p', evs, rs', backs, goes_on, sent, talk, answers, chain', kept) =
        extend_loop_lem p1 answer1 id own (hops ++ h.address ∷ []) (rs1 ++ h.router ∷ []) rest got
          (var + 1) (IsChain-snoc hops rs1 own h.address (htons id) h.router joint new) small
          (subst (λ f. AreNext f rest)
            (fun_ext
              (λ r. sym (address_of_router-senders p.sock_parent p1.sock_parent r same.senders)))
            plan)
          (ap (λ a. a.sin_port) same.receiver
            ∙ to
            ∙ sym (
                first_port-append (λ a i. IsOpen) own (htons id) hops (h.address ∷ []) rs chain)) in
      (
        p',
        udp_sent p.sock_parent.send_to_address (request_bytes id h.address.sin_port) ∷ evs,
        rs',
        back ∷ backs,
        >>=-ok _ _ runs goes_on,
        sent ∙ ap (happen evs) sends,
        and_then-some _ _ goes (and_then-some _ _ talk refl),
        (answered, answers),
        subst (λ hs. IsChain (IsJoint 0xffff) own (htons id) hs rs')
            (append_assoc hops (h.address ∷ []) (addresses_next rest)) chain',
        SamePlan-trans same kept,
      )
