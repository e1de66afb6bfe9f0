-- ===== src/Proxy/Build6.antt =====
-- `Build_An_Circuit_6` of proxy.cc.
use torupload.Base.{ltb, ◌==◌, zero, suc, ◌+◌, ◌%◌, ◌&&◌, none, some, List, [], ◌∷◌, ℕ}
use torupload.Base.Outcome.{Outcome, ok, assertion, guard, ◌>>=◌, ◌>>◌}
use torupload.Message.{Message, load16, htons}
use torupload.Machine.{Machine}
use torupload.Key.{key_of_router}
use torupload.Onion.{TorHop, hop_at}
use torupload.Socket.{Received, receive_message, set_this_router_as_sender}
use torupload.Router.State.{enc_circuit_extend_done}
use torupload.Proxy.State.{Proxy, send_message}
use torupload.Proxy.Hops.{randomly_select_hops2, log_hops}
use torupload.Proxy.Onion.{key_message, extend_message}

module _ (e : Machine) where
  -- The entries of `TOR_CCt_HOPs`, each with a new key made of `random var`, and the end mark.
  unfoldable pub make_hops : (ℕ → List ℕ) → ℕ → List ℕ → Outcome (List TorHop)
  unfolding key_of_router
  make_hops random var [] = ok (record { router_id = 0xff; router_key = none } ∷ [])
  make_hops random var (r ∷ hops) = do
    guard (ltb 0 r) assertion
    later ← make_hops random (var + 1) hops
    ok (
        record { router_id = r; router_key = some (key_of_router e (random var) (r % 256)) }
        ∷ later)

  -- One hop: its key, the hop behind it, and the answer `got`.
  unfoldable pub establish_hop : ℕ → Proxy → Message → ℕ → Received → Outcome (Proxy × Message)
  unfolding key_message extend_message send_message
  establish_hop circuit_id p answer var got = do
    m1 ← key_message e p circuit_id var
    p1 ← send_message p m1
    m2 ← extend_message e p1 circuit_id var
    p2 ← send_message p1 m2
    (sock, answer') ← receive_message p2.sock_parent answer got
    guard
        (answer'.msg 20 == enc_circuit_extend_done
          && answer'.actual_length == 23
          && circuit_id == htons (load16 answer'.msg 21))
        assertion
    ok (record p2 { sock_parent = sock }, answer')

  -- `rounds` hops from hop `var` on.
  unfoldable pub establish_hops : ℕ → (ℕ → Received) → Proxy → Message → ℕ → ℕ → Outcome Proxy
  unfolding establish_hop
  establish_hops circuit_id got p answer var zero = ok p
  establish_hops circuit_id got p answer var (suc rounds) = do
    (p', answer') ← establish_hop circuit_id p answer var (got var)
    establish_hops circuit_id got p' answer' (var + 1) rounds

  -- `Build_An_Circuit_6`: `rand` selects the hops, `random var` is the raw key of hop `var`, and
  -- `got var` is what is received in round `var`.
  unfoldable pub build_an_circuit_6 : ℕ → (ℕ → List ℕ) → (ℕ → Received) → Proxy → Outcome Proxy
  unfolding make_hops hop_at establish_hops randomly_select_hops2
  build_an_circuit_6 rand random got p = do
    let selected = randomly_select_hops2 rand p.no_of_routers p.no_of_hops
    let p1 = log_hops p 0 selected
    hops ← make_hops random 0 selected
    first ← hop_at hops 0
    sock ← set_this_router_as_sender p1.sock_parent first.router_id
    let p2 = record p1 {
      sock_parent = sock;
      tor_cct_hops = hops;
      next_circuit = p.next_circuit + 1;
    }
    establish_hops p.next_circuit got p2 (record { msg = e.indeterminate; actual_length = 0 }) 0
        p.no_of_hops
