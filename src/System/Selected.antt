-- ===== src/System/Selected.antt =====
-- The proxy's start up to the building of a circuit, over routers that have just started.
use torupload.Proxy.Build6.{build_an_circuit_6}
use torupload.System.Registered.{IsRegistered}
use torupload.System.Registered.{before}
use torupload.Proxy.Register.{enter_tain_router_up_msges}
use torupload.Proxy.Start.{proxy_process, build, Supply, new_proxy}
use torupload.Circuit.Extend.Table.{AreSelected}
use torupload.Proxy.Hops.Laws.{InRange}
use torupload.Socket.{address_of_router}
use torupload.Router.Contract.{view}
use torupload.Proxy.State.{Proxy}
use torupload.Circuit.Extend.{IsFresh}
use torupload.System.Reported.{IsHost, started_lem}
use torupload.System.{Host, router_address, started, hops_of}
use torupload.Machine.{Machine}
use torupload.Base.{
  eq→==, ℕ, ◌+◌, ◌≤◌, ◌<◌, ◌≡◌, refl, List, [], ◌∷◌, arith, length, lt→ltb, le→leb, ne→==, suc, ap,
}
use torupload.Base.Outcome.{ok, >>=-ok}

module _ (e : Machine) (h : Host) (n hops : ℕ) (host : IsHost e h n) where
  started-IsFresh : (i : ℕ) → 0 < i → i ≤ n → IsFresh (view (started e h 6 i))
  started-IsFresh i low high =
      let has = (started_lem e h n host i low high).1 in
      record { stage = has.stage_is; no_key = has.no_circuit.1; no_hop = has.no_circuit.2 }

  -- The routers that are selected are as the building of a circuit needs them.
  pub hops_of-AreSelected :
      (p : Proxy) (var : ℕ) (selected : List ℕ)
      → ((i : ℕ) → 0 < i → i ≤ n → address_of_router p.sock_parent i ≡ ok (router_address h i))
      → InRange n selected
      → AreSelected e
          (address_of_router p.sock_parent)
          h.random
          var
          selected
          (hops_of e h 6 var selected)
  hops_of-AreSelected p var [] known range = tt
  hops_of-AreSelected p var (r ∷ rs) known ((low, high), range) = (
    omega arith,
    omega (arith, host.few),
    host.keys var,
    refl,
    known r (omega arith) high,
    omega (arith, host.ports r (omega arith) high),
    started-IsFresh r (omega arith) high,
    hops_of-AreSelected p (var + 1) rs known range,
  )

  pub length-hops_of : (var : ℕ) (rs : List ℕ) → length (hops_of e h 6 var rs) ≡ length rs
  length-hops_of var [] = refl
  length-hops_of var (r ∷ rs) = ap suc (length-hops_of (var + 1) rs)

  -- The start of the proxy, once the reports are in.
  pub proxy_process-build :
      (s : Supply) (p : Proxy)
      → enter_tain_router_up_msges e s.garbage s.reports (before e h n hops host) ≡ ok p
      → IsRegistered e h n hops host p
      → 0 < hops
      → hops ≤ n
      → proxy_process e s h.proxy_port (new_proxy 6 n hops)
        ≡ build_an_circuit_6 e s.rand s.random s.answers p
  unfolding proxy_process build
  proxy_process-build s p run is least few = >>=-ok _ _ run (
      rw
        (
          lt→ltb 4 p.stage (omega (arith, is.same.stage)),
          lt→ltb 0 p.no_of_hops (omega (arith, is.same.hops)),
          le→leb p.no_of_hops p.no_of_routers (omega (arith, is.same.hops, is.same.routers)),
          ne→== p.stage 5 (λ five. absurd (omega (arith, five, is.same.stage))),
          eq→== p.stage 6 is.same.stage,
        )
        refl)
