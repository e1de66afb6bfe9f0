-- ===== src/Router/Contract.antt =====
-- What `Handler` of router.cc promises of a router's circuit: the few ways in which one round of
-- its loop can change the entry of the circuit and the flags that guard it.
pub mod Rounds
pub mod Handle
pub mod Safety
pub mod Origin
use torupload.Base.{ℕ, ◌+◌, ◌*◌, Bool, true, false, some, ◌≡◌}
use torupload.Message.{u16, Message, htons, load16, load32, slice}
use torupload.Machine.{Machine}
use torupload.Router.Wrap.{payload}
use torupload.Base.Outcome.{ok}
use torupload.Key.{MyKey, key_from_proxy, decrypt_this_message}
use torupload.Socket.{SockAddr}
use torupload.Router.State.{
  CircuitInfoEntry, Router, proto_mini_tor, circuit_extend, relay_this_data_fwd,
  last_hop_port_number, fake_diffie_hellman, enc_circuit_extend,
}

-- A router without its socket, its message and what it has done.
pub record View : Type 0 where
  pub stage : ℕ
  pub my_router_id : ℕ
  pub my_raw_ip : ℕ
  pub port_no_of_proxy : ℕ
  pub entry : CircuitInfoEntry
  pub to_forward : Bool
  pub to_forward_fdh : Bool
  pub to_forward_ece : Bool

abbrev pub view : Router → View
view r = record {
  stage = r.stage;
  my_router_id = r.my_router_id;
  my_raw_ip = r.my_raw_ip;
  port_no_of_proxy = r.port_no_of_proxy;
  entry = r.entry;
  to_forward = r.to_forward;
  to_forward_fdh = r.to_forward_fdh;
  to_forward_ece = r.to_forward_ece;
}

-- The identifier that a router of this number makes of a given one.
abbrev pub own_id : View → ℕ → ℕ
own_id v given = u16 (given + v.my_router_id * 256 + 1)

-- The first request of stage 5.
abbrev pub after_request : View → SockAddr → ℕ → ℕ → View
after_request v from given port = record v {
  entry = record v.entry {
    circuit_requester_addr = from;
    given_circuit_id = given;
    my_circuit_id = own_id v given;
    next_hop_rtr_for_circuit = record v.entry.next_hop_rtr_for_circuit { sin_port = port };
  };
  to_forward = true;
}

-- The first key of stage 6.
abbrev pub after_key : View → SockAddr → ℕ → MyKey → View
after_key v from given k = record v {
  entry = record v.entry {
    circuit_requester_addr = from;
    given_circuit_id = given;
    ptr_to_key_for_cct = some k;
  };
  to_forward_fdh = true;
}

-- The first extension of stage 6.
abbrev pub after_extension : View → ℕ → View
after_extension v port = record v {
  entry = record v.entry {
    my_circuit_id = own_id v v.entry.given_circuit_id;
    next_hop_rtr_for_circuit = record v.entry.next_hop_rtr_for_circuit { sin_port = port };
  };
  to_forward_ece = true;
}

-- A Mini-Tor message with this command.
abbrev pub IsCommand : Message → ℕ → Type 0
IsCommand m command = (m.msg 9 ≡ proto_mini_tor) × (m.msg 20 ≡ command)

-- No reason to change anything: what would be a first message of its kind is not the first one,
-- and a forward packet leaves at the last hop.
pub record Idle (m : Message) (v : View) : Type 0 where
  pub no_request : v.stage ≡ 5 → IsCommand m circuit_extend → v.to_forward ≡ true
  pub no_source :
      v.stage ≡ 5
      → IsCommand m relay_this_data_fwd
      → v.entry.next_hop_rtr_for_circuit.sin_port ≡ last_hop_port_number
  pub no_key : v.stage ≡ 6 → IsCommand m fake_diffie_hellman → v.to_forward_fdh ≡ true
  pub no_extension : v.stage ≡ 6 → IsCommand m enc_circuit_extend → v.to_forward_ece ≡ true

-- One round, in which the message `m` came from `from`: nothing of the circuit changes, or the one
-- of four things happens that the command asks for and that stage and flags allow, with the values
-- that stand in the message.
pub data Round (e : Machine) (from : SockAddr) (m : Message) (v : View) : View → Type 0 where
  idle : Idle m v → Round e from m v v
  circuit_requested :
      v.stage ≡ 5
      → v.to_forward ≡ false
      → IsCommand m circuit_extend
      → Round e from m v (after_request v from (htons (load16 m.msg 21)) (load16 m.msg 23))
  source_seen :
      v.stage ≡ 5
      → ¬ (v.entry.next_hop_rtr_for_circuit.sin_port ≡ last_hop_port_number)
      → IsCommand m relay_this_data_fwd
      → Round e from m v
          (record v { entry = record v.entry { prev_hop_real_ip = load32 m.msg 35 } })
  circuit_keyed :
      v.stage ≡ 6
      → v.to_forward_fdh ≡ false
      → IsCommand m fake_diffie_hellman
      → Round e from m v
          (after_key v from (htons (load16 m.msg 21)) (key_from_proxy e (slice m.msg 23 16)))
  circuit_extended :
      v.stage ≡ 6
      → v.to_forward_ece ≡ false
      → IsCommand m enc_circuit_extend
      → (k : MyKey) → v.entry.ptr_to_key_for_cct ≡ some k
      → (p q : Message) → payload e m ≡ ok p
      → decrypt_this_message e k p ≡ ok q
      → Round e from m v (after_extension v (load16 q.msg 0))
