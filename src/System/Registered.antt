-- ===== src/System/Registered.antt =====
-- The proxy once all routers have reported.
use torupload.Config.Forked.{forked-InRange, length-forked, forked-mem, forked-Nodup}
use torupload.Trace.{proxy_port}
use torupload.Proxy.Register.Table.{
  Report, AreReports, Free, filled, address_in, datagrams, register_all_lem,
}
use torupload.Proxy.Start.{new_proxy}
use torupload.Config.{forked}
use torupload.System.Reported.{
  IsHost, report_of, AllExist, AllExist-Mem, address_in-order, AreReports-order, rounds-in_turn,
  reports_of-datagrams,
}
use torupload.Socket.{Received, address_of_router, slot, new_socket, pos}
use torupload.Message.{Message}
use torupload.System.{Host, router_address, in_turn, reports_of}
use torupload.Proxy.State.{Proxy}
use torupload.Proxy.Register.{register_all, register_router, enter_tain_router_up_msges, rounds}
use torupload.Machine.{Machine}
use mathlib.Core.List.Perm
use mathlib.Core.List.{Perm}
use mathlib.Core.List as List
use mathlib.Core.Nat.{suc_inj}
use torupload.Proxy.State.{log_it}
use torupload.Circuit.Extend.Echo.{address_of_router-slot}
use torupload.Base.{
  ℕ, ◌≤◌, ◌<◌, ◌≡◌, ◌∙◌, List, [], ◌∷◌, arith, ne→==, length, length-map, suc, ◌+◌, ◌-◌, refl, sym,
  inl, inr, some, map, ap,
}
use torupload.Base.Outcome.{ok, After, After->>=, After-ok, >>=-ok}

-- What registration leaves as it is.
pub record SameSettings (p p' : Proxy) : Type 0 where
  pub stage : p'.stage ≡ p.stage
  pub routers : p'.no_of_routers ≡ p.no_of_routers
  pub hops : p'.no_of_hops ≡ p.no_of_hops
  pub circuit : p'.next_circuit ≡ p.next_circuit

register_router-keeps :
    (garbage : ℕ) (p : Proxy) (m : Message) (got : Received)
    → After (λ x. SameSettings p x.0) (register_router garbage p m got)
unfolding register_router
register_router-keeps garbage p m got = ground arith

SameSettings-trans : {p q r : Proxy} → SameSettings p q → SameSettings q r → SameSettings p r
SameSettings-trans a b = record {
  stage = b.stage ∙ a.stage;
  routers = b.routers ∙ a.routers;
  hops = b.hops ∙ a.hops;
  circuit = b.circuit ∙ a.circuit;
}

register_all-keeps :
    (garbage : ℕ) (p p0 : Proxy) (m : Message) (xs : List Received)
    → SameSettings p0 p
    → After (SameSettings p0) (register_all garbage p m xs)
unfolding register_all
register_all-keeps garbage p p0 m [] same = same
register_all-keeps garbage p p0 m (got ∷ xs) same =
    After->>= _ _ (register_router garbage p m got) _ (register_router-keeps garbage p m got)
      (λ (p1, m1) step. register_all-keeps garbage p1 p0 m1 xs (SameSettings-trans same step))

-- The library's length says the same as ours.
same_length : (xs ys : List ℕ) → List.length xs ≡ List.length ys → length xs ≡ length ys
same_length [] [] e = refl
same_length [] (y ∷ ys) e = cc
same_length (x ∷ xs) [] e = cc
same_length (x ∷ xs) (y ∷ ys) e = ap suc (same_length xs ys (suc_inj e))

module _ (e : Machine) (h : Host) (n hops : ℕ) (host : IsHost e h n) where
  -- The proxy before the first report.
  abbrev pub before : Proxy
  before = log_it (new_proxy 6 n hops) (proxy_port h.proxy_port)

  -- Its table after the last one holds the address of every router.
  pub record IsRegistered (p : Proxy) : Type 0 where
    pub same : SameSettings before p
    pub known :
        (i : ℕ) → 0 < i → i ≤ n → address_of_router p.sock_parent i ≡ ok (router_address h i)

  Free-new : (rs : List Report) → AreReports 6 rs → Free new_socket rs
  unfolding slot new_socket
  Free-new [] are = tt
  Free-new (r ∷ rs) are = (ground arith, Free-new rs are.4)

  -- What the proxy receives in its rounds is what the routers have sent.
  arrive :
      (order : List ℕ)
      → Perm order (forked (pos n))
      → AllExist e h n host order
      → rounds (in_turn (reports_of e h 6 order)) 0 n ≡ datagrams 6 (map (report_of e h) order)
  arrive order perm exist =
      ap (rounds (in_turn (reports_of e h 6 order)) 0) (
        sym (
          length-map _ order
          ∙ same_length order (forked (pos n)) (Perm.length-eq perm)
          ∙ length-forked n))
      ∙ rounds-in_turn e h n host (in_turn (reports_of e h 6 order)) (reports_of e h 6 order) 0
          (λ i. ap (in_turn (reports_of e h 6 order)) {x = 0 + i} {y = i} (omega arith))
      ∙ reports_of-datagrams e h n host order exist

  entry :
      (order : List ℕ)
      → Perm order (forked (pos n))
      → (i : ℕ) → 0 < i
      → i ≤ n
      → filled (slot new_socket.who_have_send_me (i - 1)) (address_in i (map (report_of e h) order))
        ≡ ok (some (router_address h i))
  entry order perm i low high = elim (address_in-order e h n host i order) [
    | inl found ↦ ap (filled (slot new_socket.who_have_send_me (i - 1))) found
    | inr out ↦ absurd (out ((Perm.mem_iff perm).1 (forked-mem i n low high)))
  ]

  pub enter_tain-IsRegistered :
      (order : List ℕ)
      → Perm order (forked (pos n))
      → (p : Proxy) × (enter_tain_router_up_msges e h.garbage
            (in_turn (reports_of e h 6 order))
            before
          ≡ ok p)
        × IsRegistered p
  unfolding enter_tain_router_up_msges new_socket
  enter_tain-IsRegistered order perm =
      let rs = map (report_of e h) order in
      let exist =
        AllExist-Mem e h n host order (λ i m. forked-InRange i n ((Perm.mem_iff perm).0 m)) in
      let are =
        AreReports-order e h n host order exist (Perm.nodup (Perm.symm perm) (forked-Nodup n)) in
      let (p, run, table, count, found) =
        register_all_lem h.garbage before (record { msg = e.indeterminate; actual_length = 0 }) rs
          (record { places = refl; counted = refl }) are (Free-new rs are) in
      let same =
        After-ok _
          (register_all-keeps h.garbage before before
            (record { msg = e.indeterminate; actual_length = 0 }) (datagrams 6 rs)
            (record { stage = refl; routers = refl; hops = refl; circuit = refl }))
          run in
      (
        p,
        >>=-ok _ _
            (ap
                (register_all h.garbage before
                  (record { msg = e.indeterminate; actual_length = 0 }))
                (arrive order perm exist)
              ∙ run)
            (rw (ne→== p.stage 1 (λ one. absurd (omega (arith, one, same.stage)))) refl),
        record {
          same = same;
          known = λ i low high.
              address_of_router-slot p.sock_parent i (router_address h i) low
                (found i low ∙ entry order perm i low high);
        },
      )
