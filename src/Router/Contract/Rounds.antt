-- ===== src/Router/Contract/Rounds.antt =====
-- Every round of `Handler` is one of the rounds that the contract allows.
use torupload.Router.Wrap.{payload}
use torupload.Key.{MyKey, decrypt_this_message}
use torupload.Socket.{SockAddr}
use torupload.Router.Packet.{send_to_world}
use torupload.Message.{Message, load16, htons}
use torupload.Router.Relay.{
  relay_to_next_hop, relay_to_previous_hop, relay_to_proxy, relay_to_world, relay_this_stuff,
}
use torupload.Router.Relay6.{
  relay_this_stuff6, relay_peeled, relay_plain_to_world, relay_sealed, circuit_key,
}
use torupload.Base.Outcome.{Outcome, ok, After, fault, After-eq, assertion}
use torupload.Router.Create6.{
  return_extend_done, accept_secure_extend, forward_secure_extend, forward_key, take_key,
}
use torupload.Router.State.{
  Router, send_message, proto_mini_tor, enc_circuit_extend, circuit_extend, relay_this_data_fwd,
  last_hop_port_number, relay_this_data_backwd,
}
use torupload.Router.Handler.{plain_packet}
use torupload.Machine.{Machine}
use torupload.Router.Create.{forward_extend_done, forward_extend, log_pkt, accept_extend}
use torupload.Base.{
  ◌≡◌, sym, subst, false, arith, if◌then◌else◌, refl, Bool, true, ◌==◌, eq→==, Option, none, some,
}
use torupload.Router.State
use torupload.Router.Contract.{
  Idle, IsCommand, View, after_extension, circuit_requested, source_seen, circuit_keyed,
  circuit_extended, idle, view, Round, idle,
}

-- The view of the router that a step gives is the one before.
abbrev pub Keeps : Router → Outcome (Router × Message) → Type 0
Keeps r = After (λ p. view p.0 ≡ view r)

-- With this message from this sender it is one round further.
abbrev pub Rounds : Machine → SockAddr → Message → Router → Outcome (Router × Message) → Type 0
Rounds e from m r = After (λ p. Round e from m (view r) (view p.0))

pub Keeps-Rounds :
    (e : Machine) (from : SockAddr) (m : Message) (r : Router) (x : Outcome (Router × Message))
    → Idle m (view r)
    → Keeps r x
    → Rounds e from m r x
Keeps-Rounds e from m r (ok p) quiet kept = subst (Round e from m (view r)) (sym kept) (idle quiet)
Keeps-Rounds e from m r (fault why) quiet kept = tt

pub Rounds-if :
    (P : Outcome (Router × Message) → Type 0) (b : Bool) (x y : Outcome (Router × Message))
    → (b ≡ true → P x)
    → (b ≡ false → P y)
    → P (if b then x else y)
Rounds-if P true x y on_true on_false = on_true refl
Rounds-if P false x y on_true on_false = on_false refl

pub Idle-stage5 :
    (m : Message) (v : View)
    → v.stage ≡ 5
    → (IsCommand m circuit_extend → v.to_forward ≡ true)
    → (IsCommand m relay_this_data_fwd
        → v.entry.next_hop_rtr_for_circuit.sin_port ≡ last_hop_port_number)
    → Idle m v
Idle-stage5 m v stage request source = record {
  no_request = λ _. request;
  no_source = λ _. source;
  no_key = λ six. absurd (omega (arith, six, stage));
  no_extension = λ six. absurd (omega (arith, six, stage));
}

pub Idle-stage6 :
    (m : Message) (v : View)
    → v.stage ≡ 6
    → (IsCommand m State.fake_diffie_hellman → v.to_forward_fdh ≡ true)
    → (IsCommand m enc_circuit_extend → v.to_forward_ece ≡ true)
    → Idle m v
Idle-stage6 m v stage key extension = record {
  no_request = λ five. absurd (omega (arith, five, stage));
  no_source = λ five. absurd (omega (arith, five, stage));
  no_key = λ _. key;
  no_extension = λ _. extension;
}

-- No message of the overlay, or a stage without circuits.
pub Idle-else :
    (m : Message) (v : View)
    → (m.msg 9 ≡ proto_mini_tor → ¬ (v.stage ≡ 5) × ¬ (v.stage ≡ 6))
    → Idle m v
Idle-else m v out = record {
  no_request = λ five command. absurd ((out command.0).0 five);
  no_source = λ five command. absurd ((out command.0).0 five);
  no_key = λ six command. absurd ((out command.0).1 six);
  no_extension = λ six command. absurd ((out command.0).1 six);
}

pub log_pkt-keeps :
    (r : Router) (m : Message)
    → After
        (λ r1. (view r1 ≡ view r) × (r1.sock_child.last_sender ≡ r.sock_child.last_sender))
        (log_pkt r m)
unfolding log_pkt
log_pkt-keeps r m = ground arith

pub plain_packet-Keeps : (r : Router) (m : Message) → Keeps r (plain_packet r m)
unfolding plain_packet send_message send_to_world
plain_packet-Keeps r m = ground arith

pub forward_extend-Keeps : (r : Router) (m : Message) → Keeps r (forward_extend r m)
unfolding forward_extend log_pkt send_message
forward_extend-Keeps r m = ground arith

pub forward_extend_done-Keeps : (r : Router) (m : Message) → Keeps r (forward_extend_done r m)
unfolding forward_extend_done log_pkt send_message
forward_extend_done-Keeps r m = ground arith

pub return_extend_done-Keeps :
    (e : Machine) (r : Router) (m : Message) → Keeps r (return_extend_done e r m)
unfolding return_extend_done send_message
return_extend_done-Keeps e r m = ground arith

module _ (e : Machine) where
  pub relay_this_stuff6-Keeps : (r : Router) (m : Message) → Keeps r (relay_this_stuff6 e r m)
  unfolding relay_this_stuff6 relay_peeled relay_plain_to_world relay_sealed send_message
      send_to_world
  relay_this_stuff6-Keeps r m = ground arith

  pub relay_to_world-Keeps : (r : Router) (m : Message) → Keeps r (relay_to_world e r m)
  unfolding relay_to_world send_message send_to_world
  relay_to_world-Keeps r m = ground arith

  pub relay_to_next_hop-round :
      (from : SockAddr) (r : Router) (m : Message)
      → r.stage ≡ 5
      → ¬ (r.entry.next_hop_rtr_for_circuit.sin_port ≡ last_hop_port_number)
      → IsCommand m relay_this_data_fwd
      → Rounds e from m r (relay_to_next_hop e r m)
  unfolding relay_to_next_hop send_message
  relay_to_next_hop-round from r m stage other command =
      let step : Round e from m (view r) _ = source_seen stage other command in ground (arith, step)

  pub relay_to_previous_hop-Keeps :
      (r : Router) (m : Message) → Keeps r (relay_to_previous_hop e r m)
  unfolding relay_to_previous_hop send_message
  relay_to_previous_hop-Keeps r m = ground arith

  pub relay_to_proxy-Keeps : (r : Router) (m : Message) → Keeps r (relay_to_proxy e r m)
  unfolding relay_to_proxy send_message
  relay_to_proxy-Keeps r m = ground arith

  -- What `RelayThisStuff` does with a reply.
  relay_back-Keeps :
      (r : Router) (m : Message)
      → Keeps r (
          if m.actual_length == 107
          then (if r.entry.circuit_requester_addr.sin_port == htons r.port_no_of_proxy
              then relay_to_proxy e r m
              else relay_to_previous_hop e r m)
          else fault assertion)
  relay_back-Keeps r m =
      let previous = relay_to_previous_hop-Keeps r m in
      let proxy = relay_to_proxy-Keeps r m in ground (arith, previous, proxy)

  pub accept_extend-round :
      (from : SockAddr) (r : Router) (m : Message)
      → r.sock_child.last_sender ≡ from
      → r.stage ≡ 5
      → r.to_forward ≡ false
      → IsCommand m circuit_extend
      → Rounds e from m r (accept_extend r m)
  unfolding accept_extend log_pkt send_message
  accept_extend-round from r m sender stage first command =
      subst (λ a. Rounds e a m r (accept_extend r m)) sender
        (let step : Round e r.sock_child.last_sender m (view r) _ =
            circuit_requested stage first command in
          ground (arith, step))

  pub take_key-round :
      (from : SockAddr) (r : Router) (m : Message)
      → r.sock_child.last_sender ≡ from
      → r.stage ≡ 6
      → r.to_forward_fdh ≡ false
      → IsCommand m State.fake_diffie_hellman
      → Rounds e from m r (take_key e r m)
  unfolding take_key
  take_key-round from r m sender stage first command =
      subst (λ a. Rounds e a m r (take_key e r m)) sender
        (let step : Round e r.sock_child.last_sender m (view r) _ =
            circuit_keyed stage first command in
          ground (arith, step))

  pub forward_key-Keeps : (r : Router) (m : Message) → Keeps r (forward_key e r m)
  unfolding forward_key send_message
  forward_key-Keeps r m = ground arith

  pub forward_secure_extend-Keeps :
      (r : Router) (m : Message) → Keeps r (forward_secure_extend e r m)
  unfolding forward_secure_extend send_message
  forward_secure_extend-Keeps r m = ground arith

  circuit_key-some : (o : Option MyKey) {k : MyKey} → circuit_key o ≡ ok k → o ≡ some k
  unfolding circuit_key
  circuit_key-some none run = cc
  circuit_key-some (some k') run = cc

  pub accept_secure_extend-round :
      (from : SockAddr) (r : Router) (m : Message)
      → r.stage ≡ 6
      → r.to_forward_ece ≡ false
      → IsCommand m enc_circuit_extend
      → Rounds e from m r (accept_secure_extend e r m)
  unfolding accept_secure_extend send_message
  accept_secure_extend-round from r m stage first command = After-eq _ (payload e m) _ (λ p opened.
      After-eq _ (circuit_key r.entry.ptr_to_key_for_cct) _ (λ k has.
        After-eq _ (decrypt_this_message e k p) _ (λ q plain.
          let step : Round e from m (view r) (after_extension (view r) (load16 q.msg 0)) =
            circuit_extended stage first command k (circuit_key-some r.entry.ptr_to_key_for_cct has)
              p q opened plain in
          ground (arith, step))))

  pub relay_this_stuff-round :
      (from : SockAddr) (r : Router) (m : Message)
      → r.stage ≡ 5
      → m.msg 9 ≡ proto_mini_tor
      → Rounds e from m r (relay_this_stuff e r m)
  unfolding relay_this_stuff
  relay_this_stuff-round from r m stage proto =
      Rounds-if (Rounds e from m r) (m.msg 20 == relay_this_data_fwd) _ _
        (λ forward.
          let is : m.msg 20 ≡ relay_this_data_fwd = ground arith in
          Rounds-if (Rounds e from m r)
            (r.entry.next_hop_rtr_for_circuit.sin_port == last_hop_port_number) _ _
            (λ last.
              Keeps-Rounds e from m r _
                (Idle-stage5 m (view r) stage (λ command. absurd (omega (arith, command.1, is)))
                  (λ _. ground arith))
                (relay_to_world-Keeps r m))
            (λ other.
              relay_to_next_hop-round from r m stage (λ same. cc (other, eq→== _ _ same))
                (proto, is)))
        (λ _.
          Rounds-if (Rounds e from m r) (m.msg 20 == relay_this_data_backwd) _ _
            (λ backward.
              let is : m.msg 20 ≡ relay_this_data_backwd = ground arith in
              Keeps-Rounds e from m r _
                (Idle-stage5 m (view r) stage (λ command. absurd (omega (arith, command.1, is)))
                  (λ command. absurd (omega (arith, command.1, is))))
                (relay_back-Keeps r m))
            (λ _. tt))

  pub relay_reply-Keeps :
      (r : Router) (m : Message)
      → m.msg 20 ≡ relay_this_data_backwd
      → Keeps r (relay_this_stuff e r m)
  unfolding relay_this_stuff
  relay_reply-Keeps r m is = rw is (relay_back-Keeps r m)
