-- ===== src/System/Reported.antt =====
-- The routers' processes from their start to the proxy's table of addresses.
use torupload.Router.State.{Router}
use torupload.Proxy.Register.Table.{Report}
use torupload.Proxy.Register.{rounds}
use torupload.Circuit.Startup.{HasReported, router_process-HasReported}
use torupload.Circuit.{newest}
use torupload.Router.Start.{report, router_process}
use torupload.Proxy.Register.Table.{Report}
use torupload.Message.{htons}
use torupload.Socket.{Received, arrived}
use torupload.Proxy.Register.Table.{Unnamed, address_in, AreReports, datagrams, text_of}
use torupload.System.{Host, heard, started, reports_of, in_turn, router_address, home_address}
use torupload.Machine.{Machine}
use mathlib.Core.List.{
  Mem, Nodup, Nodup-cons, mem-cons, mem-cons_self, mem-cons_of_mem, not-mem-nil,
}
use mathlib.Core.Logic.Or
use native.Mathlib.Decide.{ℕ_discrete}
use torupload.Base.{
  eq→==, ne→==, ℕ, suc, ◌+◌, ◌≤◌, ◌<◌, ◌≡◌, refl, ◌∙◌, ap, ap₂, sym, subst, List, [], ◌∷◌, map,
  arith, ◌⊎◌, inl, inr, length, some, ◌++◌,
}
use torupload.Base.Outcome.{ok}

-- What the host has to give: ports below 0xffff, reports that fit a message, key texts of 16 bytes;
-- and at most six routers.
pub record IsHost (e : Machine) (h : Host) (n : ℕ) : Type 0 where
  pub few : n < 7
  pub ports : (i : ℕ) → 0 < i → i ≤ n → h.port i < 0xffff
  pub proxy_port : h.proxy_port < 65536
  pub texts :
      (i : ℕ) → 0 < i → i ≤ n → length (report 6 i (h.pid i) (h.reported_port i) (e.nic i)) < 500
  pub keys : (var : ℕ) → length (h.random var) ≡ 16

abbrev pub report_of : Machine → Host → ℕ → Report
report_of e h i = record {
  id = i;
  pid = h.pid i;
  port = h.reported_port i;
  ip = e.nic i;
  from = router_address h i;
}

module _ (e : Machine) (h : Host) (n : ℕ) (host : IsHost e h n) where
  started-ok :
      (i : ℕ) (r : Router)
      → router_process e 6 i (h.pid i) (h.reported_port i) h.proxy_port ≡ ok r
      → started e h 6 i ≡ r
  unfolding started
  started-ok i r run = rw (started, run) refl

  pub started_lem :
      (i : ℕ)
      → 0 < i
      → i ≤ n
      → (router_process e 6 i (h.pid i) (h.reported_port i) h.proxy_port ≡ ok (started e h 6 i))
        × HasReported e 6 i (h.pid i) (h.reported_port i) h.proxy_port (started e h 6 i)
  started_lem i low high =
      let (r, run, has) =
        router_process-HasReported e 6 i (h.pid i) (h.reported_port i) h.proxy_port
          (λ same. absurd (omega (arith, same))) host.proxy_port (host.texts i low high) in
      subst
        (λ q.
          (router_process e 6 i (h.pid i) (h.reported_port i) h.proxy_port ≡ ok q)
          × HasReported e 6 i (h.pid i) (h.reported_port i) h.proxy_port q)
        (sym (started-ok i r run)) (run, has)

  -- What the proxy receives of a router.
  heard_lem :
      (i : ℕ)
      → 0 < i
      → i ≤ n
      → heard (home_address h) (router_address h i) (newest (started e h 6 i).trace)
        ≡ arrived (router_address h i) (text_of 6 (report_of e h i) ++ 0 ∷ [])
  heard_lem i low high =
      ap (λ t. heard (home_address h) (router_address h i) (newest t))
        (started_lem i low high).1.sent
      ∙ rw (eq→== (htons h.proxy_port) (htons h.proxy_port) refl) refl

  -- The order in which the reports come: no router is named that does not exist.
  abbrev pub AllExist : List ℕ → Type 0
  AllExist [] = Unit {0}
  AllExist (i ∷ order) = ((0 < i) × (i ≤ n)) × AllExist order

  pub reports_of-datagrams :
      (order : List ℕ)
      → AllExist order
      → reports_of e h 6 order ≡ datagrams 6 (map (report_of e h) order)
  reports_of-datagrams [] exist = refl
  reports_of-datagrams (i ∷ order) (here, later) =
      ap₂ ◌∷◌ (heard_lem i here.0 here.1) (reports_of-datagrams order later)

  pub rounds-in_turn :
      (got : ℕ → Received) (xs : List Received) (var : ℕ)
      → ((i : ℕ) → got (var + i) ≡ in_turn xs i)
      → rounds got var (length xs) ≡ xs
  rounds-in_turn got [] var same = refl
  rounds-in_turn got (x ∷ xs) var same =
      ap₂ ◌∷◌ (ap got {x = var} {y = var + 0} (omega arith) ∙ same 0) (
        rounds-in_turn got xs (var + 1)
          (λ i. ap got {x = var + 1 + i} {y = var + suc i} (omega arith) ∙ same (suc i)))

  Unnamed-order : (i : ℕ) (order : List ℕ) → ¬ Mem i order → Unnamed i (map (report_of e h) order)
  Unnamed-order i [] out = tt
  Unnamed-order i (j ∷ order) out = (
    (λ same. out (subst (λ k. Mem k (j ∷ order)) same mem-cons_self)),
    Unnamed-order i order (λ m. out (mem-cons_of_mem j m)),
  )

  pub AreReports-order :
      (order : List ℕ) → AllExist order → Nodup order → AreReports 6 (map (report_of e h) order)
  AreReports-order [] exist distinct = tt
  AreReports-order (i ∷ order) (here, later) distinct = (
    here.0,
    omega (arith, here.1, host.few),
    host.texts i here.0 here.1,
    Unnamed-order i order (Nodup-cons.0 distinct).0,
    AreReports-order order later (Nodup-cons.0 distinct).1,
  )

  -- A router that has reported is in the map of the reports.
  pub address_in-order :
      (i : ℕ) (order : List ℕ)
      → (address_in i (map (report_of e h) order) ≡ some (router_address h i)) ⊎ (¬ Mem i order)
  address_in-order i [] = inr (λ m. not-mem-nil m)
  address_in-order i (j ∷ order) = elim (ℕ_discrete j i) [
    | yes same ↦ inl (rw (eq→== j i same) (ap (λ k. some (router_address h k)) same))
    | no other ↦ elim (address_in-order i order) [
      | inl found ↦ inl (rw (ne→== j i other) found)
      | inr out ↦ inr (λ m. Or.elim (λ x y. absurd x) (mem-cons.0 m) (λ e. other (sym e)) out)
    ]
  ]

  pub AllExist-Mem : (order : List ℕ) → ((i : ℕ) → Mem i order → (0 < i) × (i ≤ n)) → AllExist order
  AllExist-Mem [] each = tt
  AllExist-Mem (i ∷ order) each =
      (each i mem-cons_self, AllExist-Mem order (λ j m. each j (mem-cons_of_mem i m)))
