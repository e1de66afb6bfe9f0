-- ===== src/Circuit/Extend/Session.antt =====
-- A circuit of stage 6 in use: what the proxy and the routers have to be for packets to go out and
-- for replies to come back, whatever they have handled since it was built.
use torupload.Circuit.Extend.WayBack.{IsCircuit}
use torupload.Router.Contract.Safety.{handler-frozen}
use torupload.Circuit.Extend.Route.{IsRoute-cons, first_port}
use torupload.Aes.{IsAes}
use torupload.Router.Contract.{view}
use torupload.Onion.Peel.{HasKeys, AllKeys}
use torupload.Base.Outcome.{ok}
use torupload.Onion.{TorHop, hop_at}
use torupload.Circuit.Extend.{IsRoute, IsLink}
use torupload.Router.Handler.{Input, handler}
use torupload.Proxy.Loop.Course.{Course}
use torupload.Router.State.{Router}
use torupload.Key.{MyKey}
use torupload.Socket.{SockAddr, slot}
use torupload.Machine.{Machine}
use torupload.Base.{◌≡◌, sym, length, ℕ, ◌-◌, ◌<◌, some, List, [], ◌∷◌, subst}

-- Each of these routers has handled some datagrams without a fault.
abbrev pub HaveServed : Machine → List Router → List Router → Type 0
HaveServed e [] [] = Unit
HaveServed e [] (r' ∷ rs') = ⊥
HaveServed e (r ∷ rs) [] = ⊥
HaveServed e (r ∷ rs) (r' ∷ rs') =
    ((inputs : List Input) × (handler e r inputs ≡ ok r')) × HaveServed e rs rs'

-- The proxy's table, whose course this is, fits the circuit of these routers.
pub record IsStanding (e : Machine) (own : SockAddr) (c : Course) (hops : List SockAddr)
    (rs : List Router) (keys : List MyKey) : Type 0 where
  pub id : ℕ
  pub first : TorHop
  pub address : SockAddr
  pub stage : c.stage ≡ 6
  pub has : HasKeys c.tor_cct_hops keys
  pub schedules : AllKeys e keys
  pub count : length keys ≡ c.no_of_hops
  pub front : hop_at c.tor_cct_hops 0 ≡ ok first
  pub known : slot c.who_have_send_me (first.router_id - 1) ≡ ok (some address)
  pub positive : 0 < first.router_id
  pub port : address.sin_port ≡ first_port hops
  pub circuit : IsCircuit e own id hops rs keys

module _ (e : Machine) (laws : IsAes e.aes) where
  -- No run changes a router that is linked up.
  IsLink-served :
      {k : MyKey} {port : ℕ} {prev : SockAddr} {id : ℕ} (r : Router) (inputs : List Input)
      {r' : Router}
      → IsLink e k port prev id (view r)
      → handler e r inputs ≡ ok r'
      → view r' ≡ view r
  IsLink-served r inputs link run =
      handler-frozen e r inputs link.stage link.has_key link.has_hop run

  IsRoute-served :
      (hops : List SockAddr) (rs rs' : List Router) (ks : List MyKey) (k : MyKey) (port : ℕ)
      (prev : SockAddr) (id : ℕ)
      → IsRoute e (IsLink e k port) prev id hops rs ks
      → HaveServed e rs rs'
      → IsRoute e (IsLink e k port) prev id hops rs' ks
  IsRoute-served [] rs rs' ks k port prev id route served = absurd route
  IsRoute-served (a ∷ hops) [] rs' ks k port prev id route served = absurd route
  IsRoute-served (a ∷ hops) (r ∷ rs) [] ks k port prev id route served = absurd served
  IsRoute-served (a ∷ []) (r ∷ []) (r' ∷ []) [] k port prev id route ((inputs, run), served) =
      subst (IsLink e k port prev id) (sym (IsLink-served r inputs route run)) route
  IsRoute-served (a ∷ []) (r ∷ []) (r' ∷ r2 ∷ rs') [] k port prev id route (run, served) =
      absurd served
  IsRoute-served (a ∷ []) (r ∷ []) (r' ∷ rs') (k' ∷ ks) k port prev id route served = absurd route
  IsRoute-served (a ∷ []) (r ∷ r2 ∷ rs) (r' ∷ rs') ks k port prev id route served = absurd route
  IsRoute-served (a ∷ a2 ∷ hops) (r ∷ rs) (r' ∷ rs') [] k port prev id route served = absurd route
  IsRoute-served (a ∷ a2 ∷ hops) (r ∷ rs) (r' ∷ rs') (k' ∷ ks) k port prev id (link, small, route)
        ((inputs, run), served) =
      IsRoute-cons e laws (IsLink e k port) prev a a2 id hops r r' rs' k' ks
        (IsLink-served r inputs link run) link small
        (IsRoute-served (a2 ∷ hops) rs rs' ks k port a r.entry.my_circuit_id route served)

  pub IsStanding-served :
      {own : SockAddr} {c : Course} {hops : List SockAddr} {rs rs' : List Router}
      {keys : List MyKey}
      → IsStanding e own c hops rs keys
      → HaveServed e rs rs'
      → IsStanding e own c hops rs' keys
  IsStanding-served {own} {c} {hops} {rs} {rs'} ready served = record {
    id = ready.id;
    first = ready.first;
    address = ready.address;
    stage = ready.stage;
    has = ready.has;
    schedules = ready.schedules;
    count = ready.count;
    front = ready.front;
    known = ready.known;
    positive = ready.positive;
    port = ready.port;
    circuit = record {
      front = ready.circuit.front;
      last = ready.circuit.last;
      split = ready.circuit.split;
      route =
          IsRoute-served hops rs rs' ready.circuit.front ready.circuit.last 0xffff own ready.id
            ready.circuit.route served;
    };
  }
