-- ===== src/Router/State.antt =====
-- The globals of router.cc, and the constants of general.h.
use torupload.Base.{ℕ, Bool, Option, List, ◌∷◌}
use torupload.Base.Outcome.{Outcome, ok, ◌>>=◌}
use torupload.Message.{Message}
use torupload.Key.{MyKey}
use torupload.Socket.{SockAddr, UdpSocket, datagram}
use torupload.Trace.{Event, udp_sent, LogLine, logged}

abbrev pub proto_mini_tor : ℕ
proto_mini_tor = 253

abbrev pub last_hop_port_number : ℕ
last_hop_port_number = 0xffff

abbrev pub circuit_extend : ℕ
circuit_extend = 0x52

abbrev pub circuit_extend_done : ℕ
circuit_extend_done = 0x53

abbrev pub relay_this_data_fwd : ℕ
relay_this_data_fwd = 0x51

abbrev pub relay_this_data_backwd : ℕ
relay_this_data_backwd = 0x54

abbrev pub fake_diffie_hellman : ℕ
fake_diffie_hellman = 0x65

abbrev pub enc_circuit_extend : ℕ
enc_circuit_extend = 0x62

abbrev pub enc_circuit_extend_done : ℕ
enc_circuit_extend_done = 0x63

abbrev pub relay_data_fwd_enc : ℕ
relay_data_fwd_enc = 0x61

abbrev pub relay_data_bwd_enc : ℕ
relay_data_bwd_enc = 0x64

-- `none` is the null pointer.
pub record CircuitInfoEntry : Type 0 where
  pub circuit_requester_addr : SockAddr
  pub prev_hop_real_ip : ℕ
  pub given_circuit_id : ℕ
  pub my_circuit_id : ℕ
  pub next_hop_rtr_for_circuit : SockAddr
  pub ptr_to_key_for_cct : Option MyKey

-- `entry` is `CircuitInfoEntryTable[0]`, the only entry that the program touches. `r_message` is
-- the variable of `Handler`, which outlives the rounds of its loop. The newest event comes first.
pub record Router : Type 0 where
  pub stage : ℕ
  pub my_router_id : ℕ
  pub my_raw_ip : ℕ
  pub port_no_of_proxy : ℕ
  pub sock_child : UdpSocket
  pub entry : CircuitInfoEntry
  pub to_forward : Bool
  pub to_forward_fdh : Bool
  pub to_forward_ece : Bool
  pub r_message : Message
  pub trace : List Event

abbrev pub log_it : Router → LogLine → Router
log_it r l = record r { trace = logged l ∷ r.trace }

abbrev pub set_receiver : Router → SockAddr → Router
set_receiver r a = record r { sock_child = record r.sock_child { send_to_address = a } }

-- `sockChild->SendMessage(message)`.
unfoldable pub send_message : Router → Message → Outcome Router
unfolding datagram
send_message r m = do
  bytes ← datagram m
  ok (record r { trace = udp_sent r.sock_child.send_to_address bytes ∷ r.trace })
