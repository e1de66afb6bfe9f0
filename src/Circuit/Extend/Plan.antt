-- ===== src/Circuit/Extend/Plan.antt =====
-- The routers that a circuit is built over, one after the other, and the network between them.
use torupload.Key.RoundTrip.{IsKey}
use torupload.Router.Contract.{view}
use torupload.Circuit.Forward.{IsPath, HoldsKey}
use torupload.Circuit.{Node}
use torupload.Router.State.{Router}
use torupload.Base.Outcome.{Outcome, ok}
use torupload.Socket.{SockAddr}
use torupload.Trace.{Event}
use torupload.Key.{MyKey}
use torupload.Machine.{Machine}
use torupload.Base.{ℕ, suc, ◌<◌, ◌≡◌, Option, none, List, [], ◌∷◌, ◌++◌, map, arith, some}
use torupload.Circuit.Extend.{IsFresh, IsLink, IsRoute, carry, exchange, and_then}

-- A hop that is still to come: where its router is, what it is, and the key meant for it.
pub record Ahead : Type 0 where
  pub address : SockAddr
  pub router : Router
  pub key : MyKey

-- The keys, and the addresses, of these hops.
abbrev pub keys_ahead : List Ahead → List MyKey
keys_ahead rest = map (λ h. h.key) rest

abbrev pub addresses_ahead : List Ahead → List SockAddr
addresses_ahead rest = map (λ h. h.address) rest

-- The hops behind hop `var` are what the proxy's table says: each is at the port that the proxy
-- names to the hop before it, and has been given nothing yet; the last hop is named 0xffff.
abbrev pub IsPlan : Machine → (ℕ → Outcome ℕ) → ℕ → List Ahead → Type 0
IsPlan e ports var [] = ports var ≡ ok 0xffff
IsPlan e ports var (h ∷ rest) =
    (ports var ≡ ok h.address.sin_port)
    × (h.address.sin_port < 0xffff)
    × IsFresh (view h.router)
    × IsKey e h.key
    × IsPlan e ports (suc var) rest

-- What the process at `own` sends, two messages in each round: a key, which goes along the
-- circuit, and an extension request, which comes back answered. Each round has one router more.
-- The result is the routers at the end, and what was sent to `own`.
abbrev pub network :
    Machine
    → SockAddr
    → List SockAddr
    → List Router
    → List Ahead
    → List Event
    → Option (List Router × List (Option Event))
network e own hops rs rest [] = none
network e own hops rs rest (ev ∷ []) = none
network e own hops rs [] (ev1 ∷ ev2 ∷ []) =
    and_then (carry e hops rs own (some ev1))
      (λ rs1. and_then (exchange e hops rs1 own (some ev2)) (λ (rs2, back). some (rs2, back ∷ [])))
network e own hops rs [] (ev1 ∷ ev2 ∷ ev3 ∷ evs) = none
network e own hops rs (h ∷ rest) (ev1 ∷ ev2 ∷ evs) =
    and_then (carry e hops rs own (some ev1)) (λ rs1.
      and_then (exchange e hops rs1 own (some ev2)) (λ (rs2, back).
        and_then (network e own (hops ++ h.address ∷ []) (rs2 ++ h.router ∷ []) rest evs)
          (λ (rs3, backs). some (rs3, back ∷ backs))))

-- Events in the order in which they happen, put on a trace.
abbrev pub happen : List Event → List Event → List Event
happen [] trace = trace
happen (ev ∷ evs) trace = happen evs (ev ∷ trace)

-- The routers at their addresses.
abbrev pub nodes_at : List SockAddr → List Router → List Node
nodes_at [] rs = []
nodes_at (a ∷ hops) [] = []
nodes_at (a ∷ hops) (r ∷ rs) = record { address = a; router = r } ∷ nodes_at hops rs

module _ (e : Machine) where
  -- A finished chain, and a new router at the port that its last one has been given.
  pub IsRoute-snoc :
      (hops : List SockAddr) (rs : List Router) (ks : List MyKey) (k : MyKey) (prev a' : SockAddr)
      (id : ℕ) (r' : Router)
      → IsRoute e (IsLink e k a'.sin_port) prev id hops rs ks
      → a'.sin_port < 0xffff
      → IsFresh (view r')
      → IsRoute e (λ a i. IsFresh) prev id (hops ++ a' ∷ []) (rs ++ r' ∷ []) (ks ++ k ∷ [])
  IsRoute-snoc [] rs ks k prev a' id r' route low fresh = absurd route
  IsRoute-snoc (a ∷ hops) [] ks k prev a' id r' route low fresh = absurd route
  IsRoute-snoc (a ∷ []) (r ∷ []) [] k prev a' id r' route low fresh = (route, low, fresh)
  IsRoute-snoc (a ∷ []) (r ∷ []) (k' ∷ ks) k prev a' id r' route low fresh = absurd route
  IsRoute-snoc (a ∷ []) (r ∷ r2 ∷ rs) ks k prev a' id r' route low fresh = absurd route
  IsRoute-snoc (a ∷ a2 ∷ hops) (r ∷ rs) [] k prev a' id r' route low fresh = absurd route
  IsRoute-snoc (a ∷ a2 ∷ hops) (r ∷ rs) (k' ∷ ks) k prev a' id r' (link, small, route) low fresh =
      (link, small, IsRoute-snoc (a2 ∷ hops) rs ks k a a' r.entry.my_circuit_id r' route low fresh)

  pub IsLink-HoldsKey :
      {k : MyKey} {port : ℕ} {prev : SockAddr} {id : ℕ} (r : Router)
      → IsLink e k port prev id (view r)
      → HoldsKey e r k
  IsLink-HoldsKey r link = record { stage = link.stage; key = link.key; schedules = link.schedules }

  -- A finished chain whose last router has the end mark is a path for data.
  pub IsRoute-IsPath :
      (hops : List SockAddr) (rs : List Router) (ks : List MyKey) (k : MyKey) (prev : SockAddr)
      (id : ℕ)
      → IsRoute e (IsLink e k 0xffff) prev id hops rs ks
      → IsPath e (nodes_at hops rs) (ks ++ k ∷ [])
  IsRoute-IsPath [] rs ks k prev id route = absurd route
  IsRoute-IsPath (a ∷ hops) [] ks k prev id route = absurd route
  IsRoute-IsPath (a ∷ []) (r ∷ []) [] k prev id route = (IsLink-HoldsKey r route, route.next)
  IsRoute-IsPath (a ∷ []) (r ∷ []) (k' ∷ ks) k prev id route = absurd route
  IsRoute-IsPath (a ∷ []) (r ∷ r2 ∷ rs) ks k prev id route = absurd route
  IsRoute-IsPath (a ∷ a2 ∷ hops) (r ∷ rs) [] k prev id route = absurd route
  IsRoute-IsPath (a ∷ a2 ∷ hops) (r ∷ []) (k' ∷ ks) k prev id (link, small, route) = absurd route
  IsRoute-IsPath (a ∷ a2 ∷ hops) (r ∷ r2 ∷ rs) (k' ∷ ks) k prev id (link, small, route) = (
    IsLink-HoldsKey r link,
    link.next,
    (λ mark. absurd (omega arith)),
    IsRoute-IsPath (a2 ∷ hops) (r2 ∷ rs) ks k a r.entry.my_circuit_id route,
  )
