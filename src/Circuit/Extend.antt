-- ===== src/Circuit/Extend.antt =====
-- A circuit of stage 6 while the proxy builds it: its messages on their way over the routers, and
-- what the routers know of their circuit.
pub mod Links
pub mod Route
pub mod Establish
pub mod Plan
pub mod WayBack
pub mod Build
pub mod Table
pub mod Whole
pub mod Session
pub mod Echo
pub mod Journey
use torupload.Router.Handler.{handle, from_udp}
use torupload.Circuit.{newest}
use torupload.Trace.{Event, udp_sent, raw_sent, tun_written, logged}
use torupload.Key.RoundTrip.{IsKey}
use torupload.Router.State.{Router}
use torupload.Socket.{SockAddr, arrived}
use torupload.Key.{MyKey}
use torupload.Machine.{Machine}
use torupload.Base.Outcome.{Outcome, ok, fault}
use torupload.Base.{
  ◌==◌, if◌then◌else◌, ℕ, ◌<◌, ◌≡◌, true, false, Option, none, some, List, [], ◌∷◌,
}
use torupload.Router.Contract.{View, view}

abbrev pub router_of : Outcome Router → Option Router
router_of (ok r) = some r
router_of (fault why) = none

abbrev pub and_then {ℓ κ} : {A : Type ℓ} {B : Type κ} → Option A → (A → Option B) → Option B
and_then none f = none
and_then (some a) f = f a

-- What the router at `own` is after the datagram that the process at `from` sent last, if that
-- one goes to its port and is handled.
abbrev pub deliver : Machine → SockAddr → Router → SockAddr → Option Event → Option Router
deliver e own r from none = none
deliver e own r from (some (udp_sent to bytes)) =
    if to.sin_port == own.sin_port
    then router_of (handle e r (from_udp (arrived from bytes)))
    else none
deliver e own r from (some (raw_sent to bytes)) = none
deliver e own r from (some (tun_written bytes)) = none
deliver e own r from (some (logged l)) = none

-- A message goes along the routers at these addresses; each sends on what it makes of it. The
-- result is what the routers are then.
unfoldable pub carry :
    Machine → List SockAddr → List Router → SockAddr → Option Event → Option (List Router)
carry e [] [] from event = some []
carry e [] (r ∷ rs) from event = none
carry e (a ∷ hops) [] from event = none
carry e (a ∷ hops) (r ∷ rs) from event =
    and_then (deliver e a r from event)
      (λ r1. and_then (carry e hops rs a (newest r1.trace)) (λ rs1. some (r1 ∷ rs1)))

-- A message goes along the routers, and what the last one sends goes back over all of them: the
-- routers then, and what the first one sent last.
unfoldable pub exchange :
    Machine
    → List SockAddr
    → List Router
    → SockAddr
    → Option Event
    → Option (List Router × Option Event)
exchange e [] rs from event = none
exchange e (a ∷ hops) [] from event = none
exchange e (a ∷ []) (r ∷ []) from event =
    and_then (deliver e a r from event) (λ r1. some (r1 ∷ [], newest r1.trace))
exchange e (a ∷ []) (r ∷ r' ∷ rs) from event = none
exchange e (a ∷ a' ∷ hops) (r ∷ rs) from event = and_then (deliver e a r from event) (λ r1.
    and_then (exchange e (a' ∷ hops) rs a (newest r1.trace))
      (λ (rs1, back). and_then (deliver e a r1 a' back) (λ r2. some (r2 ∷ rs1, newest r2.trace))))

-- A router that no message about a circuit has reached.
pub record IsFresh (v : View) : Type 0 where
  pub stage : v.stage ≡ 6
  pub no_key : v.to_forward_fdh ≡ false
  pub no_hop : v.to_forward_ece ≡ false

-- One that has taken its key, from `prev` and under the identifier `id`.
pub record IsKeyed (e : Machine) (k : MyKey) (prev : SockAddr) (id : ℕ) (v : View) : Type 0 where
  pub stage : v.stage ≡ 6
  pub key : v.entry.ptr_to_key_for_cct ≡ some k
  pub schedules : IsKey e k
  pub requester : v.entry.circuit_requester_addr ≡ prev
  pub given : v.entry.given_circuit_id ≡ id
  pub has_key : v.to_forward_fdh ≡ true
  pub no_hop : v.to_forward_ece ≡ false

-- One that has its next hop as well.
pub record IsLink (e : Machine) (k : MyKey) (port : ℕ) (prev : SockAddr) (id : ℕ) (v : View)
    : Type 0 where
  pub stage : v.stage ≡ 6
  pub key : v.entry.ptr_to_key_for_cct ≡ some k
  pub schedules : IsKey e k
  pub requester : v.entry.circuit_requester_addr ≡ prev
  pub given : v.entry.given_circuit_id ≡ id
  pub has_key : v.to_forward_fdh ≡ true
  pub has_hop : v.to_forward_ece ≡ true
  pub next : v.entry.next_hop_rtr_for_circuit.sin_port ≡ port
  pub own : v.entry.my_circuit_id < 65536

-- The routers at these addresses are linked up under the keys `ks`, each to the one behind it, and
-- of the last one, behind them, `Last` holds.
abbrev pub IsRoute :
    Machine
    → (SockAddr → ℕ → View → Type 0)
    → SockAddr
    → ℕ
    → List SockAddr
    → List Router
    → List MyKey
    → Type 0
IsRoute e Last prev id [] rs ks = ⊥
IsRoute e Last prev id (a ∷ hops) [] ks = ⊥
IsRoute e Last prev id (a ∷ []) (r ∷ []) [] = Last prev id (view r)
IsRoute e Last prev id (a ∷ []) (r ∷ []) (k ∷ ks) = ⊥
IsRoute e Last prev id (a ∷ []) (r ∷ r' ∷ rs) ks = ⊥
IsRoute e Last prev id (a ∷ a' ∷ hops) (r ∷ rs) [] = ⊥
IsRoute e Last prev id (a ∷ a' ∷ hops) (r ∷ rs) (k ∷ ks) =
    IsLink e k a'.sin_port prev id (view r)
    × (a'.sin_port < 0xffff)
    × IsRoute e Last a r.entry.my_circuit_id (a' ∷ hops) rs ks
