-- ===== src/Router/Contract/Origin.antt =====
-- Where a router's key comes from: the first key message of its run.
use torupload.Router.Contract.Safety.{router_process-view, handler-kept}
use torupload.Router.Start.{router_process}
use torupload.Router.Contract.Handle.{Explained, handle-Round}
use torupload.Router.Handler.{Input, from_udp, from_raw, handle, handler}
use torupload.Router.State.{Router}
use torupload.Router.State
use torupload.Router.Contract.{
  View, view, Round, idle, circuit_requested, source_seen, circuit_keyed, circuit_extended,
  IsCommand,
}
use torupload.Base.Outcome.{ok, After-ok, After, >>=-eq-ok}
use torupload.Message.{Message, htons, load16, slice}
use torupload.Key.{key_from_proxy}
use torupload.Socket.{UdpSocket, SockAddr, receive_message}
use torupload.Machine.{Machine}
use torupload.Base.{
  ◌≡◌, ◌⊎◌, inl, inr, refl, sym, subst, ap, true, false, some, none, List, ◌∷◌, arith, ℕ, ◌∙◌, [],
}

-- This input is a key message, which `ReceiveMessage` leaves as `m` and from `sock`'s last sender.
abbrev pub HearsKey : Router → Input → UdpSocket → Message → Type 0
HearsKey r (from_udp got) sock m =
    (receive_message r.sock_child r.r_message got ≡ ok (sock, m))
    × IsCommand m State.fake_diffie_hellman
HearsKey r (from_raw got) sock m = ⊥

-- In a run over these inputs the router, which is `at` by then, hears a key message.
pub data KeyRound (e : Machine) : Router → List Input → Router → UdpSocket → Message → Type 0 where
  now :
      {r : Router} {i : Input} {inputs : List Input} {sock : UdpSocket} {m : Message}
      → HearsKey r i sock m
      → KeyRound e r (i ∷ inputs) r sock m
  later :
      {r r1 at : Router} {i : Input} {inputs : List Input} {sock : UdpSocket} {m : Message}
      → handle e r i ≡ ok r1
      → KeyRound e r1 inputs at sock m
      → KeyRound e r (i ∷ inputs) at sock m

abbrev Unkeyed : View → Type 0
Unkeyed v = (v.to_forward_fdh ≡ false) × (v.entry.ptr_to_key_for_cct ≡ none)

-- The circuit is the one that this message asks for.
pub record IsKeyedBy (e : Machine) (from : SockAddr) (m : Message) (v : View) : Type 0 where
  pub stage : v.stage ≡ 6
  pub flag : v.to_forward_fdh ≡ true
  pub key : v.entry.ptr_to_key_for_cct ≡ some (key_from_proxy e (slice m.msg 23 16))
  pub requester : v.entry.circuit_requester_addr ≡ from
  pub given : v.entry.given_circuit_id ≡ htons (load16 m.msg 21)

module _ (e : Machine) where
  Round-IsKeyedBy :
      {from from' : SockAddr} {m m' : Message} {v w : View}
      → Round e from' m' v w
      → IsKeyedBy e from m v
      → IsKeyedBy e from m w
  Round-IsKeyedBy (idle quiet) by = by
  Round-IsKeyedBy (circuit_requested five first command) by = absurd (omega (arith, five, by.stage))
  Round-IsKeyedBy (source_seen five other command) by = absurd (omega (arith, five, by.stage))
  Round-IsKeyedBy (circuit_keyed six first command) by = cc (first, by.flag)
  Round-IsKeyedBy (circuit_extended six first command k has p q opened plain) by = record {
    stage = by.stage;
    flag = by.flag;
    key = by.key;
    requester = by.requester;
    given = by.given;
  }

  Round-Unkeyed :
      {from : SockAddr} {m : Message} {v w : View}
      → Round e from m v w
      → Unkeyed v
      → (Unkeyed w × (v.stage ≡ 6 → ¬ IsCommand m State.fake_diffie_hellman) × (w.stage ≡ v.stage))
        ⊎ (IsCommand m State.fake_diffie_hellman × IsKeyedBy e from m w)
  Round-Unkeyed (idle quiet) un =
      inl (un, (λ six command. cc (quiet.no_key six command, un.0)), refl)
  Round-Unkeyed (circuit_requested five first command) un =
      inl (un, (λ six. absurd (omega (arith, five, six))), refl)
  Round-Unkeyed (source_seen five other command) un =
      inl (un, (λ six. absurd (omega (arith, five, six))), refl)
  Round-Unkeyed (circuit_keyed six first command) un =
      inr (command, record { stage = six; flag = refl; key = refl; requester = refl; given = refl })
  Round-Unkeyed (circuit_extended six first command k has p q opened plain) un =
      inl (un, (λ _ key. absurd (omega (arith, key.1, command.1))), refl)

  -- One step of a router without a key.
  step :
      (r : Router) (i : Input) (r1 : Router)
      → Explained e r i (view r1)
      → Unkeyed (view r)
      → (Unkeyed (view r1)
          × (r.stage ≡ 6 → (sock : UdpSocket) (m : Message) → ¬ HearsKey r i sock m)
          × (r1.stage ≡ r.stage))
        ⊎ ((sock : UdpSocket) × (m : Message) × HearsKey r i sock m
            × IsKeyedBy e sock.last_sender m (view r1))
  step r (from_udp got) r1 (sock, m, heard, round) un = elim (Round-Unkeyed round un) [
    | inl (un1, quiet, same) ↦ inl (
      un1,
      (λ six sock' m' hears.
          After-ok no_key (subst (After no_key) (sym heard) (quiet six)) hears.0 hears.1),
      same,
    )
    | inr (command, by) ↦ inr (sock, m, (heard, command), by)
  ]
    where
      no_key : UdpSocket × Message → Type 0
      no_key x = ¬ IsCommand x.1 State.fake_diffie_hellman
  step r (from_raw got) r1 same un =
      inl (subst Unkeyed (sym same) un, (λ six sock m hears. hears), ap (λ v. v.stage) same)

  none_in_nil : (r at : Router) (sock : UdpSocket) (m : Message) → ¬ KeyRound e r [] at sock m
  none_in_nil r at sock m hears = elim hears [ ]

  none_in_cons :
      (r r1 : Router) (i : Input) (inputs : List Input)
      → handle e r i ≡ ok r1
      → ((sock : UdpSocket) (m : Message) → ¬ HearsKey r i sock m)
      → ((at : Router) (sock : UdpSocket) (m : Message) → ¬ KeyRound e r1 inputs at sock m)
      → (at : Router) (sock : UdpSocket) (m : Message) → ¬ KeyRound e r (i ∷ inputs) at sock m
  none_in_cons r r1 i inputs first quiet behind at sock m (now hears) = quiet sock m hears
  none_in_cons r r1 i inputs first quiet behind at sock m (later first' hears) =
      After-ok silent (subst (After silent) (sym first) (behind at sock m)) first' hears
    where
      silent : Router → Type 0
      silent x = ¬ KeyRound e x inputs at sock m

  -- A run from a router without a key.
  run_lem :
      (r : Router) (inputs : List Input) (r' : Router)
      → handler e r inputs ≡ ok r'
      → Unkeyed (view r)
      → (Unkeyed (view r')
          × (r.stage ≡ 6
              → (at : Router) (sock : UdpSocket) (m : Message) → ¬ KeyRound e r inputs at sock m))
        ⊎ ((at : Router) × (sock : UdpSocket) × (m : Message) × KeyRound e r inputs at sock m
            × Unkeyed (view at)
            × IsKeyedBy e sock.last_sender m (view r'))
  unfolding handler
  run_lem r [] r' run un = inl (After-ok (λ x. Unkeyed (view x)) un run, (λ six. none_in_nil r))
  run_lem r (i ∷ inputs) r' run un =
      let (r1, first, rest) = >>=-eq-ok (handle e r i) (λ x. handler e x inputs) run in
      let explained = After-ok (λ x. Explained e r i (view x)) (handle-Round e r i) first in
      elim (step r i r1 explained un) [
        | inl (un1, quiet, same) ↦ elim (run_lem r1 inputs r' rest un1) [
          | inl (un', behind) ↦
              inl (un', (λ six. none_in_cons r r1 i inputs first (quiet six) (behind (same ∙ six))))
          | inr (at, sock, m, hears, un_at, by) ↦ inr (at, sock, m, later first hears, un_at, by)
        ]
        | inr (sock, m, hears, by) ↦ inr (
          r,
          sock,
          m,
          now hears,
          un,
          After-ok (λ x. IsKeyedBy e sock.last_sender m (view x))
              (handler-kept e (IsKeyedBy e sock.last_sender m)
                (λ from' m' v w round. Round-IsKeyedBy round) r1 inputs by)
              rest,
        )
      ]

  -- After any run of `Handler` without a fault, from a router's start on and over any datagrams:
  -- either the router has no key, and, if its stage is 6, no round of the run received a key
  -- message; or some round, in which it had no key yet, received one, the stage is 6, the flag for
  -- key messages is set, and this message has the last word at the end of the run: the key is the
  -- one of the message's 16 bytes, the requester is its sender, and the given circuit identifier is
  -- the message's.
  pub handler-IsKeyedBy :
      (stage id pid own_port proxy_port : ℕ) (inputs : List Input) {r0 r : Router}
      → router_process e stage id pid own_port proxy_port ≡ ok r0
      → handler e r0 inputs ≡ ok r
      → ((r.entry.ptr_to_key_for_cct ≡ none)
          × (stage ≡ 6
              → (at : Router) (sock : UdpSocket) (m : Message) → ¬ KeyRound e r0 inputs at sock m))
        ⊎ ((at : Router) × (sock : UdpSocket) × (m : Message) × KeyRound e r0 inputs at sock m
            × (at.entry.ptr_to_key_for_cct ≡ none)
            × IsKeyedBy e sock.last_sender m (view r))
  handler-IsKeyedBy stage id pid own_port proxy_port inputs {r0} {r} started run =
      let start = After-ok _ (router_process-view e stage id pid own_port proxy_port) started in
      elim (run_lem r0 inputs r run (subst Unkeyed (sym start) (refl, refl))) [
        | inl (un, silent) ↦ inl (un.1, (λ six. silent (ap (λ v. v.stage) start ∙ six)))
        | inr (at, sock, m, hears, un, by) ↦ inr (at, sock, m, hears, un.1, by)
      ]
