-- ===== src/Circuit/Plain/Whole.antt =====
-- `Build_An_Circuit`, stage 5, from the selection of its hops to the last answer.
use torupload.Circuit.Extend.Whole.{log_hops-trace, same_addresses, set_this_router_as_sender_lem}
use torupload.Circuit.Extend.Plan.{happen}
use torupload.Base.Outcome.{ok, >>=-ok}
use torupload.Message.{htons}
use torupload.Trace.{hop, Event}
use torupload.Circuit.Plain.{IsChain, IsJoint}
use torupload.Router.State.{Router, last_hop_port_number}
use torupload.Proxy.Hops.{log_hops, randomly_select_hops2}
use torupload.Circuit.Plain.Build.{
  IsAnswer, Next, AreNext, addresses_next, requests, extend_loop_lem,
}
use torupload.Circuit.Plain.Round.{sent_events}
use torupload.Proxy.Build.{build_an_circuit, first_hop, rounds_after_first}
use torupload.Machine.{Machine}
use torupload.Socket.{SockAddr, Received, address_of_router}
use torupload.Proxy.State.{Proxy, log_it}
use torupload.Base.{
  ℕ, ◌+◌, ◌<◌, ◌≡◌, refl, ap, ◌∙◌, sym, subst, List, [], ◌∷◌, ◌++◌, All, Option, some, map,
}

-- The circuit as it is after the loop.
pub record IsBuiltPlain (own : SockAddr) (p p' : Proxy) (selected : List ℕ) (hs : List Next)
    (rs : List Router) : Type 0 where
  pub stage : p'.stage ≡ p.stage
  pub circuit : p'.next_circuit ≡ p.next_circuit + 1
  pub senders : p'.sock_parent.who_have_send_me ≡ p.sock_parent.who_have_send_me
  pub hops : p'.my_cct_hops ≡ selected ++ last_hop_port_number ∷ []
  pub chain : IsChain (IsJoint 0xffff) own (htons p.next_circuit) (addresses_next hs) rs

sent_events-log_hops :
    (p : Proxy) (n : ℕ) (hops : List ℕ)
    → sent_events (log_hops p n hops).trace ≡ sent_events p.trace
sent_events-log_hops p n [] = refl
sent_events-log_hops p n (r ∷ hops) = sent_events-log_hops (log_it p (hop (n + 1) r)) (n + 1) hops

module _ (e : Machine) where
  pub build_plain_lem :
      (p : Proxy) (rand : ℕ) (got : ℕ → Received) (own : SockAddr) (h : Next) (rest : List Next)
      → randomly_select_hops2 rand p.no_of_routers p.no_of_hops ≡ map (λ a. a.number) (h ∷ rest)
      → AreNext (address_of_router p.sock_parent) (h ∷ rest)
      → p.next_circuit < 65536
      → (p' : Proxy) × (evs : List Event) × (rs : List Router) × (backs : List (Option Event))
        × (build_an_circuit e rand got p ≡ ok p')
        × (sent_events p'.trace ≡ happen evs (sent_events p.trace))
        × (requests e own (h.address ∷ []) (h.router ∷ []) rest evs ≡ some (rs, backs))
        × All (IsAnswer own) backs
        × IsBuiltPlain own p p' (map (λ a. a.number) (h ∷ rest)) (h ∷ rest) rs
  unfolding build_an_circuit first_hop rounds_after_first
  build_plain_lem p rand got own h rest sel (inside, known, low, new, plan) small =
      let selected = map (λ a. a.number) (h ∷ rest) in
      let (t, logged) = log_hops-trace p 0 selected in
      let p2 = record p {
        sock_parent = record p.sock_parent { send_to_address = h.address };
        my_cct_hops = selected ++ last_hop_port_number ∷ [];
        next_circuit = p.next_circuit + 1;
        trace = t;
      } in
      let (p', evs, rs, backs, runs, sent, talk, answers, chain, same) =
        extend_loop_lem e p2 (record { msg = e.indeterminate; actual_length = 0 }) p.next_circuit
          own (h.address ∷ []) (h.router ∷ []) rest got 0 new small
          (subst (λ f. AreNext f rest) (sym (same_addresses p.sock_parent h.address)) plan) refl in
      (
        p',
        evs,
        rs,
        backs,
        rw (sel, logged)
            (>>=-ok _ _ (set_this_router_as_sender_lem p.sock_parent h.number h.address known)
              runs),
        sent
            ∙ ap (happen evs)
                (ap (λ q. sent_events q.trace) (sym logged) ∙ sent_events-log_hops p 0 selected),
        talk,
        answers,
        record {
          stage = same.stage;
          circuit = same.circuit;
          senders = same.senders;
          hops = same.hops;
          chain = chain;
        },
      )
