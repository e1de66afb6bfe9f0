-- ===== src/Circuit/Extend/Whole.antt =====
-- `Build_An_Circuit_6` from the selection of its hops to the last answer.
use torupload.Message.{Message}
use torupload.Proxy.Hops.Laws.{length-randomly_select_hops2}
use torupload.Onion.{hop_at}
use torupload.Key.RoundTrip.{IsKey, key_of_router-IsKey}
use torupload.Circuit.Extend.Establish.{done_bytes}
use torupload.Base.Outcome.{ok, >>=-ok, Outcome, ◌>>=◌}
use torupload.Circuit.Extend.WayBack.{IsCircuit}
use torupload.Onion.Peel.{HasKeys}
use torupload.Proxy.Build6.{build_an_circuit_6, establish_hops}
use torupload.Proxy.Hops.{log_hops, randomly_select_hops2}
use torupload.Router.State.{Router}
use torupload.Aes.{IsAes}
use torupload.Machine.{Machine}
use torupload.Trace.{Event, hop, udp_sent}
use torupload.Socket.{
  address_of_router, set_this_router_as_sender, UdpSocket, SockAddr, arrived, Received,
}
use torupload.Base.{
  length, replicate, ℕ, suc, ◌+◌, ◌*◌, ◌%◌, ◌≤◌, ◌<◌, ◌≡◌, refl, sym, ap, ◌∙◌, subst, some, List,
  [], ◌∷◌, arith,
}
use torupload.Circuit.Extend.Table.{
  make_hops_lem, AreSelected, table, table-HasKeys, table-IsPlan, hop_at-suc, hop_at-zero,
  AreSelected-length,
}
use torupload.Circuit.Extend.Plan.{Ahead, network, happen, keys_ahead, addresses_ahead}
use torupload.Circuit.Extend.Build.{build_lem}
use torupload.Proxy.State.{log_it, Proxy}

pub log_hops-trace :
    (p : Proxy) (n : ℕ) (hops : List ℕ)
    → (t : List Event) × (log_hops p n hops ≡ record p { trace = t })
log_hops-trace p n [] = (p.trace, refl)
log_hops-trace p n (r ∷ hops) =
    let (t, is) = log_hops-trace (log_it p (hop (n + 1) r)) (n + 1) hops in (t, is)

pub set_this_router_as_sender_lem :
    (s : UdpSocket) (id : ℕ) (a : SockAddr)
    → address_of_router s id ≡ ok a
    → set_this_router_as_sender s id ≡ ok (record s { send_to_address = a })
unfolding set_this_router_as_sender
set_this_router_as_sender_lem s id a known = >>=-ok _ _ known refl

pub same_addresses :
    (s : UdpSocket) (a : SockAddr)
    → address_of_router (record s { send_to_address = a }) ≡ address_of_router s
unfolding address_of_router
same_addresses s a = refl

-- The circuit as it is after the loop: the table of hops in the proxy holds the routers' keys, and
-- the routers at their addresses are a path under these keys.
pub record IsBuilt (e : Machine) (own : SockAddr) (p p' : Proxy) (selected : List ℕ)
    (hs : List Ahead) (rs : List Router) : Type 0 where
  pub stage : p'.stage ≡ p.stage
  pub count : p'.no_of_hops ≡ p.no_of_hops
  pub circuit : p'.next_circuit ≡ p.next_circuit + 1
  pub senders : p'.sock_parent.who_have_send_me ≡ p.sock_parent.who_have_send_me
  pub hops : p'.tor_cct_hops ≡ table selected hs
  pub keys : HasKeys p'.tor_cct_hops (keys_ahead hs)
  pub routers : IsCircuit e own p.next_circuit (addresses_ahead hs) rs (keys_ahead hs)

module _ (e : Machine) (laws : IsAes e.aes) where
  whole_lem :
      (p : Proxy) (rand : ℕ) (random : ℕ → List ℕ) (own : SockAddr) (h : Ahead) (rest : List Ahead)
      (selected : List ℕ)
      → randomly_select_hops2 rand p.no_of_routers p.no_of_hops ≡ selected
      → AreSelected e (address_of_router p.sock_parent) random 0 selected (h ∷ rest)
      → p.next_circuit < 65536
      → p.no_of_hops ≡ suc (length rest)
      → 57 + 16 * length rest ≤ 500
      → (p' : Proxy) × (evs : List Event) × (rs' : List Router) × (build_an_circuit_6 e rand random
            (λ n. arrived h.address (done_bytes p.next_circuit))
            p
          ≡ ok p')
        × (p'.trace ≡ happen evs (log_hops p 0 selected).trace)
        × (network e own (h.address ∷ []) (h.router ∷ []) rest evs
            ≡ some (
              rs',
              replicate (suc (length rest)) (some (udp_sent own (done_bytes p.next_circuit))),
            ))
        × IsBuilt e own p p' selected (h ∷ rest) rs'
  unfolding build_an_circuit_6
  whole_lem p rand random own h rest [] is sel small count room = absurd sel
  whole_lem p rand random own h rest (r ∷ rs) is (pos, low, size, key, known, port, fresh, more)
        small count room =
      let sel : AreSelected e (address_of_router p.sock_parent) random 0 (r ∷ rs) (h ∷ rest) =
        (pos, low, size, key, known, port, fresh, more) in
      let (t, logged) = log_hops-trace p 0 (r ∷ rs) in
      let hops = table (r ∷ rs) (h ∷ rest) in
      let has =
        table-HasKeys e (address_of_router p.sock_parent) random 0 (r ∷ rs) (h ∷ rest) sel in
      let p2 = record p {
        sock_parent = record p.sock_parent { send_to_address = h.address };
        tor_cct_hops = hops;
        next_circuit = p.next_circuit + 1;
        trace = t;
      } in
      let blank : Message = record { msg = e.indeterminate; actual_length = 0 } in
      let answers : ℕ → Received = λ n. arrived h.address (done_bytes p.next_circuit) in
      let start : UdpSocket → Outcome Proxy = λ sock.
        establish_hops e p.next_circuit answers
          (record p {
            sock_parent = sock;
            tor_cct_hops = hops;
            next_circuit = p.next_circuit + 1;
            trace = t;
          })
          blank 0 p.no_of_hops in
      let (p', evs, rs', runs, kept, events, talk, path) =
        build_lem e laws p2 (record { msg = e.indeterminate; actual_length = 0 }) p.next_circuit own
          h.address (h.address ∷ []) (h.router ∷ []) [] h.key rest 0 fresh has
          (subst (IsKey e) (sym key) (key_of_router-IsKey e (random 0) (r % 256) size))
          (table-IsPlan e p2 random 0 rs rest
            (subst (λ s. AreSelected e s random 1 rs rest)
              (sym (same_addresses p.sock_parent h.address)) more)
            (λ i.
              ap (hop_at hops) {x = 0 + 1 + i} {y = suc i} (omega arith)
              ∙ hop_at-suc (record { router_id = r; router_key = some h.key }) (table rs rest) i))
          refl small (omega arith) refl in
      (
        p',
        evs,
        rs',
        rw (is, logged)
            (>>=-ok _ _
              (make_hops_lem e (address_of_router p.sock_parent) random 0 (r ∷ rs) (h ∷ rest) sel)
              (>>=-ok _ (λ first. set_this_router_as_sender p.sock_parent first.router_id >>= start)
                (hop_at-zero (record { router_id = r; router_key = some h.key }) (table rs rest))
                (>>=-ok _ start (set_this_router_as_sender_lem p.sock_parent r h.address known)
                  (ap (establish_hops e p.next_circuit answers p2 blank 0) count ∙ runs)))),
        events ∙ ap (happen evs) (ap (λ q. q.trace) (sym logged)),
        talk,
        record {
          stage = kept.stage;
          count = kept.count;
          circuit = kept.circuit;
          senders = kept.senders;
          hops = kept.hops;
          keys = subst (λ hs. HasKeys hs (keys_ahead (h ∷ rest))) (sym kept.hops) has;
          routers = path;
        },
      )

  -- The proxy knows the addresses of the routers that it selects, whose identifiers are between 1
  -- and 254 and whose ports are below 0xffff; their keys are made of random texts of 16 bytes; no
  -- key and no extension request has reached these routers, which are in stage 6; the circuit's
  -- identifier has 16 bits; the layers fit (`57 + 16 * length rest <= 500`, `rest` being the hops
  -- behind the first). Then `Build_An_Circuit_6` ends without a fault if each of its rounds is
  -- answered with an ENC_CIRCUIT_EXTEND_DONE under the circuit's identifier. The messages that it
  -- sends, handed to the routers in that order, make them send the proxy just these answers, one in
  -- each round. After that the routers are linked up under the keys of the proxy's table of hops,
  -- each to the next one and to the one before it, the first to the process that builds the circuit
  -- and the last one with the end mark, and the proxy's stage, number of hops and table of senders
  -- are what they were.
  pub build_an_circuit_6-IsBuilt :
      (p : Proxy) (rand : ℕ) (random : ℕ → List ℕ) (own : SockAddr) (h : Ahead) (rest : List Ahead)
      → AreSelected e
          (address_of_router p.sock_parent)
          random
          0
          (randomly_select_hops2 rand p.no_of_routers p.no_of_hops)
          (h ∷ rest)
      → p.next_circuit < 65536
      → 57 + 16 * length rest ≤ 500
      → (p' : Proxy) × (evs : List Event) × (rs' : List Router) × (build_an_circuit_6 e rand random
            (λ n. arrived h.address (done_bytes p.next_circuit))
            p
          ≡ ok p')
        × (p'.trace
            ≡ happen evs
                (log_hops p 0 (randomly_select_hops2 rand p.no_of_routers p.no_of_hops)).trace)
        × (network e own (h.address ∷ []) (h.router ∷ []) rest evs
            ≡ some (
              rs',
              replicate (suc (length rest)) (some (udp_sent own (done_bytes p.next_circuit))),
            ))
        × IsBuilt e own p p'
            (randomly_select_hops2 rand p.no_of_routers p.no_of_hops)
            (h ∷ rest)
            rs'
  build_an_circuit_6-IsBuilt p rand random own h rest sel small room =
      whole_lem p rand random own h rest (randomly_select_hops2 rand p.no_of_routers p.no_of_hops)
        refl sel small
        (sym (length-randomly_select_hops2 rand p.no_of_routers p.no_of_hops)
          ∙ sym (
              AreSelected-length e (address_of_router p.sock_parent) random 0
                (randomly_select_hops2 rand p.no_of_routers p.no_of_hops) (h ∷ rest) sel))
        room
