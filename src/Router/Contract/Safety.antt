-- ===== src/Router/Contract/Safety.antt =====
-- What no run of `Handler` can do to a circuit, whatever datagrams reach the router.
use torupload.Router.Contract.Handle.{handle-Round, Explained}
use torupload.Socket.{SockAddr}
use torupload.Message.{Message}
use torupload.Base.Outcome.{After, ok, After-ok, After->>=}
use torupload.Router.Start.{new_router, router_process}
use torupload.Router.State.{Router, send_message}
use torupload.Router.Handler.{Input, from_udp, from_raw, handler, handle}
use torupload.Machine.{Machine}
use torupload.Key.{MyKey}
use torupload.Base.{
  ◌≡◌, refl, true, false, none, some, arith, Bool-cases, ℕ, ap, ◌∙◌, inl, inr, List, [], ◌∷◌, sym,
  subst,
}
use torupload.Router.Contract.{
  View, own_id, Round, idle, circuit_requested, source_seen, circuit_keyed, circuit_extended, view,
}

-- What holds of a router from its start on. A key is there just if its flag is set, and it is set
-- before that of an extension; the circuit's own identifier is the one that is made of the given
-- one; the flags of stage 5 and of stage 6 are not both in use.
pub record IsSound (v : View) : Type 0 where
  pub keyed : v.to_forward_fdh ≡ true → (k : MyKey) × (v.entry.ptr_to_key_for_cct ≡ some k)
  pub unkeyed : v.to_forward_fdh ≡ false → v.entry.ptr_to_key_for_cct ≡ none
  pub extended :
      v.to_forward_ece ≡ true
      → (v.to_forward_fdh ≡ true) × (v.entry.my_circuit_id ≡ own_id v v.entry.given_circuit_id)
  pub requested : v.to_forward ≡ true → v.entry.my_circuit_id ≡ own_id v v.entry.given_circuit_id
  pub stage5 : v.to_forward ≡ true → v.stage ≡ 5
  pub stage6 : v.to_forward_fdh ≡ true → v.stage ≡ 6

IsSound-flag :
    {v : View} {k : MyKey}
    → IsSound v
    → v.entry.ptr_to_key_for_cct ≡ some k
    → v.to_forward_fdh ≡ true
IsSound-flag {v} s has = elim (Bool-cases v.to_forward_fdh) [
  | inl taken ↦ taken
  | inr free ↦ cc (s.unkeyed free, has)
]

Round-IsSound :
    {e : Machine} {from : SockAddr} {m : Message} {v w : View}
    → Round e from m v w
    → IsSound v
    → IsSound w
Round-IsSound (idle quiet) s = s
Round-IsSound (circuit_requested stage first command) s = record {
  keyed = s.keyed;
  unkeyed = s.unkeyed;
  extended = λ ece. ((s.extended ece).0, refl);
  requested = λ _. refl;
  stage5 = λ _. stage;
  stage6 = s.stage6;
}
Round-IsSound (source_seen stage other command) s = record {
  keyed = s.keyed;
  unkeyed = s.unkeyed;
  extended = s.extended;
  requested = s.requested;
  stage5 = s.stage5;
  stage6 = s.stage6;
}
Round-IsSound (circuit_keyed stage first command) s = record {
  keyed = λ _. (_, refl);
  unkeyed = λ no_key. cc;
  extended = λ ece. cc ((s.extended ece).0, first);
  requested = λ tf. absurd (omega (arith, s.stage5 tf, stage));
  stage5 = s.stage5;
  stage6 = λ _. stage;
}
Round-IsSound (circuit_extended stage first command k has p q opened plain) s = record {
  keyed = s.keyed;
  unkeyed = s.unkeyed;
  extended = λ _. (IsSound-flag s has, refl);
  requested = λ _. refl;
  stage5 = s.stage5;
  stage6 = s.stage6;
}

-- A circuit that has its key and its next hop stays as it is.
Round-frozen :
    {e : Machine} {from : SockAddr} {m : Message} {v w : View}
    → Round e from m v w
    → v.stage ≡ 6
    → v.to_forward_fdh ≡ true
    → v.to_forward_ece ≡ true
    → w ≡ v
Round-frozen (idle quiet) stage fdh ece = refl
Round-frozen (circuit_requested five first command) stage fdh ece = absurd (omega arith)
Round-frozen (source_seen five other command) stage fdh ece = absurd (omega arith)
Round-frozen (circuit_keyed six first command) stage fdh ece = cc
Round-frozen (circuit_extended six first command k has p q opened plain) stage fdh ece = cc

IsSound-start :
    (e : Machine) (stage id proxy_port : ℕ) → IsSound (view (new_router e stage id proxy_port))
IsSound-start e stage id proxy_port = record {
  keyed = λ taken. cc;
  unkeyed = λ _. refl;
  extended = λ ece. cc;
  requested = λ first. cc;
  stage5 = λ first. cc;
  stage6 = λ taken. cc;
}

module _ (e : Machine) where
  -- A property of views that every round keeps is kept by a step, and by a run.
  handle-kept :
      (P : View → Type 0)
      → ((from : SockAddr) (m : Message) (v w : View) → Round e from m v w → P v → P w)
      → (r : Router) (i : Input) (r1 : Router) → Explained e r i (view r1)
      → P (view r)
      → P (view r1)
  handle-kept P kept r (from_udp got) r1 (sock, m, heard, round) holds =
      kept sock.last_sender m (view r) (view r1) round holds
  handle-kept P kept r (from_raw got) r1 same holds = subst P (sym same) holds

  pub handler-kept :
      (P : View → Type 0)
      → ((from : SockAddr) (m : Message) (v w : View) → Round e from m v w → P v → P w)
      → (r : Router) (inputs : List Input) → P (view r)
      → After (λ r1. P (view r1)) (handler e r inputs)
  unfolding handler
  handler-kept P kept r [] holds = holds
  handler-kept P kept r (i ∷ inputs) holds =
      After->>= _ _ (handle e r i) _ (handle-Round e r i)
        (λ r1 round. handler-kept P kept r1 inputs (handle-kept P kept r i r1 round holds))

  pub router_process-view :
      (stage id pid own_port proxy_port : ℕ)
      → After
          (λ r. view r ≡ view (new_router e stage id proxy_port))
          (router_process e stage id pid own_port proxy_port)
  unfolding router_process send_message
  router_process-view stage id pid own_port proxy_port = ground arith

  -- After any run of `Handler` without a fault, from a router's start on and over any datagrams:
  -- the router has a key just if its flag for key messages is set; it is extended only if this flag
  -- is set; its own circuit identifier is made of the given one as soon as it is extended; and the
  -- flags of stage 5 and of stage 6 are set in their stage only.
  pub handler-IsSound :
      (stage id pid own_port proxy_port : ℕ) (inputs : List Input) {r0 r : Router}
      → router_process e stage id pid own_port proxy_port ≡ ok r0
      → handler e r0 inputs ≡ ok r
      → IsSound (view r)
  handler-IsSound stage id pid own_port proxy_port inputs {r0} started run =
      After-ok _
        (handler-kept IsSound (λ from m v w. Round-IsSound) r0 inputs
          (subst IsSound
            (sym (After-ok _ (router_process-view stage id pid own_port proxy_port) started))
            (IsSound-start e stage id proxy_port)))
        run

  -- A router of stage 6 that has its key and its next hop: no run of `Handler` without a fault,
  -- over any datagrams, changes its key, its next hop, its requester, its identifiers or its flags.
  -- No later message takes the circuit over.
  pub handler-frozen :
      (r : Router) (inputs : List Input) {r1 : Router}
      → r.stage ≡ 6
      → r.to_forward_fdh ≡ true
      → r.to_forward_ece ≡ true
      → handler e r inputs ≡ ok r1
      → view r1 ≡ view r
  handler-frozen r inputs stage fdh ece run =
      After-ok _
        (handler-kept (λ v. v ≡ view r)
          (λ from m v w round same.
            Round-frozen round (ap (λ u. u.stage) same ∙ stage)
              (ap (λ u. u.to_forward_fdh) same ∙ fdh) (ap (λ u. u.to_forward_ece) same ∙ ece)
            ∙ same)
          r inputs refl)
        run
