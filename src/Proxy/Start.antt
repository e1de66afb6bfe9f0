-- ===== src/Proxy/Start.antt =====
-- `Proxy` of proxy.cc: the proxy process up to its loop.
use torupload.Base.{ltb, leb, ◌==◌, if◌then◌else◌, ℕ, List, []}
use torupload.Base.Outcome.{Outcome, ok, assertion, guard, ◌>>◌, ◌>>=◌}
use torupload.Machine.{Machine}
use torupload.Socket.{Received, new_socket}
use torupload.Trace.{proxy_port}
use torupload.Proxy.State.{Proxy, log_it}
use torupload.Proxy.Register.{enter_tain_router_up_msges}
use torupload.Proxy.Build.{build_an_circuit}
use torupload.Proxy.Build6.{build_an_circuit_6}

-- The globals at the start.
abbrev pub new_proxy : ℕ → ℕ → ℕ → Proxy
new_proxy stage routers hops = record {
  stage = stage;
  no_of_routers = routers;
  no_of_hops = hops;
  sock_parent = new_socket;
  next_circuit = 1;
  my_cct_hops = [];
  tor_cct_hops = [];
  trace = [];
}

-- What the process takes in: the routers' reports, the values of `rand`, the answers of the
-- circuit's routers, and what a variable holds that was not written to.
pub record Supply : Type 0 where
  pub garbage : ℕ
  pub reports : ℕ → Received
  pub rand : ℕ
  pub random : ℕ → List ℕ
  pub answers : ℕ → Received

-- The circuit, in the stages that have one.
unfoldable pub build : Machine → Supply → Proxy → Outcome Proxy
build e s p =
    if ltb 4 p.stage
    then (guard (ltb 0 p.no_of_hops) assertion
        >> (guard (leb p.no_of_hops p.no_of_routers) assertion
            >> (if p.stage == 5
                then build_an_circuit e s.rand s.answers p
                else if p.stage == 6
                then build_an_circuit_6 e s.rand s.random s.answers p
                else ok p)))
    else ok p

-- `Proxy()`, with its port.
unfoldable pub proxy_process : Machine → Supply → ℕ → Proxy → Outcome Proxy
proxy_process e s port p = do
  p1 ← enter_tain_router_up_msges e s.garbage s.reports (log_it p (proxy_port port))
  build e s p1
