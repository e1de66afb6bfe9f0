-- ===== src/Circuit/Extend/Build.antt =====
-- The whole loop of `Build_An_Circuit_6` against the routers of the circuit.
use torupload.Router.Contract.{View}
use torupload.Circuit.Extend.WayBack.{IsCircuit}
use torupload.Base.Outcome.{ok, >>=-ok}
use torupload.Circuit.Extend.Route.{first_port, and_then-some}
use torupload.Key.RoundTrip.{IsKey}
use torupload.Circuit.Extend.Establish.{establish_hop-IsLink, after_round, done_bytes}
use torupload.Router.State.{Router}
use torupload.Trace.{Event, udp_sent}
use torupload.Message.{Message}
use torupload.Onion.Peel.{HasKeys}
use torupload.Proxy.Build6.{establish_hops, establish_hop}
use torupload.Aes.{IsAes}
use torupload.Socket.{address_of_router, SockAddr, arrived}
use torupload.Key.{MyKey}
use torupload.Machine.{Machine}
use torupload.Proxy.Onion.{port_of_next_hop}
use torupload.Onion.{TorHop}
use torupload.Base.{
  length, replicate, ℕ, suc, ◌+◌, ◌*◌, ◌≤◌, ◌<◌, ◌≡◌, refl, sym, ap, ◌∙◌, some, List, [], ◌∷◌, ◌++◌,
  append-nil, arith, length-append, append_assoc, subst,
}
use torupload.Circuit.Extend.{IsFresh, IsRoute}
use torupload.Circuit.Extend.Plan.{
  Ahead, IsPlan, network, happen, keys_ahead, addresses_ahead, IsRoute-snoc,
}
use torupload.Proxy.State.{Proxy}

HasKeys-prefix : (hs : List TorHop) (ks more : List MyKey) → HasKeys hs (ks ++ more) → HasKeys hs ks
HasKeys-prefix hs [] more has = tt
HasKeys-prefix [] (k ∷ ks) more has = absurd has
HasKeys-prefix (h ∷ hs) (k ∷ ks) more (first, has) = (first, HasKeys-prefix hs ks more has)

-- A round changes nothing that the ports of the next hops depend on.
port_of_next_hop-after_round :
    (p : Proxy) (from : SockAddr) (ev1 ev2 : Event)
    → port_of_next_hop (after_round p from ev1 ev2) ≡ port_of_next_hop p
unfolding port_of_next_hop address_of_router
port_of_next_hop-after_round p from ev1 ev2 = refl

first_port-append :
    (e : Machine) (Last : SockAddr → ℕ → View → Type 0) (own : SockAddr) (id : ℕ)
    (hops more : List SockAddr) (rs : List Router) (ks : List MyKey)
    → IsRoute e Last own id hops rs ks
    → first_port (hops ++ more) ≡ first_port hops
first_port-append e Last own id [] more rs ks route = absurd route
first_port-append e Last own id (a ∷ hops) more rs ks route = refl

-- What the loop leaves as it is.
pub record SameCircuit (p p' : Proxy) : Type 0 where
  pub stage : p'.stage ≡ p.stage
  pub hops : p'.tor_cct_hops ≡ p.tor_cct_hops
  pub count : p'.no_of_hops ≡ p.no_of_hops
  pub circuit : p'.next_circuit ≡ p.next_circuit
  pub senders : p'.sock_parent.who_have_send_me ≡ p.sock_parent.who_have_send_me

module _ (e : Machine) (laws : IsAes e.aes) where
  pub build_lem :
      (p : Proxy) (answer : Message) (id : ℕ) (own from : SockAddr) (hops : List SockAddr)
      (rs : List Router) (ks : List MyKey) (k : MyKey) (rest : List Ahead) (var : ℕ)
      → IsRoute e (λ a i. IsFresh) own id hops rs ks
      → HasKeys p.tor_cct_hops (ks ++ k ∷ keys_ahead rest)
      → IsKey e k
      → IsPlan e (port_of_next_hop p) (length ks) rest
      → p.sock_parent.send_to_address.sin_port ≡ first_port hops
      → id < 65536
      → 57 + 16 * (length ks + length rest) ≤ 500
      → var ≡ length ks
      → (p' : Proxy) × (evs : List Event) × (rs' : List Router) × (establish_hops e id
            (λ n. arrived from (done_bytes id))
            p
            answer
            var
            (suc (length rest))
          ≡ ok p')
        × SameCircuit p p'
        × (p'.trace ≡ happen evs p.trace)
        × (network e own hops rs rest evs
            ≡ some (rs', replicate (suc (length rest)) (some (udp_sent own (done_bytes id)))))
        × IsCircuit e own id (hops ++ addresses_ahead rest) rs' (ks ++ k ∷ keys_ahead rest)
  unfolding establish_hops
  build_lem p answer id own from hops rs ks k [] var fresh has key plan to small room count =
      let (ev1, ev2, rs1, rs2, got, carried, exchanged, round, linked) =
        establish_hop-IsLink e laws p answer id 0xffff ks k own hops rs fresh has key plan to small
          (omega arith) (omega arith) in
      (
        after_round p from ev1 ev2,
        ev1 ∷ ev2 ∷ [],
        rs2,
        >>=-ok _ _
            (ap (λ n. establish_hop e id p answer n (arrived from (done_bytes id))) count
              ∙ round from)
            refl,
        record { stage = refl; hops = refl; count = refl; circuit = refl; senders = refl },
        refl,
        and_then-some _ _ carried (and_then-some _ _ exchanged refl),
        subst (λ hs. IsCircuit e own id hs rs2 (ks ++ k ∷ [])) (sym (append-nil hops))
            record { front = ks; last = k; split = refl; route = linked },
      )
  build_lem p answer id own from hops rs ks k (h ∷ rest) var fresh has key
        (port, low, new, key', plan) to small room count =
      let more = k ∷ [] in
      let (ev1, ev2, rs1, rs2, got, carried, exchanged, round, linked) =
        establish_hop-IsLink e laws p answer id h.address.sin_port ks k own hops rs fresh
          (HasKeys-prefix p.tor_cct_hops (ks ++ more) (keys_ahead (h ∷ rest)) (
            subst (HasKeys p.tor_cct_hops) (sym (append_assoc ks more (keys_ahead (h ∷ rest))))
              has))
          key port to small (omega arith) (omega arith) in
      let p1 = after_round p from ev1 ev2 in
      let (p', evs, rs', runs, kept, events, talk, path) =
        build_lem p1 got id own from (hops ++ h.address ∷ []) (rs2 ++ h.router ∷ []) (ks ++ more)
          h.key rest (var + 1)
          (IsRoute-snoc e hops rs2 ks k own h.address id h.router linked low new)
          (subst (HasKeys p.tor_cct_hops) (sym (append_assoc ks more (keys_ahead (h ∷ rest)))) has)
          key'
          (subst (λ ports. IsPlan e ports (length (ks ++ more)) rest)
            (sym (port_of_next_hop-after_round p from ev1 ev2))
            (subst (λ n. IsPlan e (port_of_next_hop p) n rest) {x = suc (length ks)}
              (omega (arith, length-append ks more)) plan))
          (to ∙ sym (first_port-append e (λ x y. IsFresh) own id hops (h.address ∷ []) rs ks fresh))
          small (omega (arith, length-append ks more)) (omega (arith, length-append ks more)) in
      (
        p',
        ev1 ∷ ev2 ∷ evs,
        rs',
        >>=-ok _ _
            (ap (λ n. establish_hop e id p answer n (arrived from (done_bytes id))) count
              ∙ round from)
            runs,
        record {
          stage = kept.stage;
          hops = kept.hops;
          count = kept.count;
          circuit = kept.circuit;
          senders = kept.senders;
        },
        events,
        and_then-some _ _ carried (and_then-some _ _ exchanged (and_then-some _ _ talk refl)),
        subst (λ hs. IsCircuit e own id hs rs' (ks ++ k ∷ keys_ahead (h ∷ rest)))
            (append_assoc hops (h.address ∷ []) (addresses_ahead rest))
            (subst (IsCircuit e own id ((hops ++ h.address ∷ []) ++ addresses_ahead rest) rs')
              (append_assoc ks more (keys_ahead (h ∷ rest))) path),
      )
