-- ===== src/Router/Start.antt =====
-- `Router` of router.cc: a router process up to its loop, with the report that it sends.
use torupload.Base.{
  leb, ◌==◌, if◌then◌else◌, length, ℕ, ◌+◌, ◌/◌, ◌%◌, false, not, none, some, List, [], ◌∷◌, ◌++◌,
}
use torupload.Text.{codes, decimal, scan_hu, printed}
use torupload.Base.Outcome.{Outcome, ok, exit, guard, ◌>>=◌, ◌>>◌}
use torupload.Message.{Message, fill, u16}
use torupload.Machine.{Machine}
use torupload.Socket.{new_socket, no_address, loopback, set_reciver_by_name}
use torupload.Trace.{router_up}
use torupload.Router.State.{Router, log_it, send_message}

-- `IP_to_String` of MyDEBUG.cc, and what is printed behind it.
unfoldable pub ip_to_string : ℕ → List ℕ → List ℕ
ip_to_string ip s = decimal (ip % 256) (
    b'.'
    ∷ decimal (ip / 256 % 256)
        (b'.' ∷ decimal (ip / 65536 % 256) (b'.' ∷ decimal (ip / 16777216 % 256) s)))

-- The address at the end, from stage 4 on.
unfoldable pub address_part : ℕ → ℕ → List ℕ
address_part stage ip = if leb 4 stage then codes ", IP: " ++ ip_to_string ip [] else []

-- The text of the report: identifier, process, port and address.
unfoldable pub report : ℕ → ℕ → ℕ → ℕ → ℕ → List ℕ
report stage id pid port ip =
    codes "router: "
    ++ decimal id
        (codes ", pid: " ++ decimal pid (codes ", port: " ++ decimal port (address_part stage ip)))

-- `sscanf(portNoOfProxy.c_str(), "%hu", …)`, over the text that `PrintPort` gave.
unfoldable pub port_read : ℕ → ℕ
port_read port = elim (scan_hu (decimal port [])) [ none ↦ 0 | some n ↦ n ]

-- The globals at the start, and `r_message`.
abbrev pub new_router : Machine → ℕ → ℕ → ℕ → Router
new_router e stage id proxy_port = record {
  stage = stage;
  my_router_id = id;
  my_raw_ip = e.nic id;
  port_no_of_proxy = port_read proxy_port;
  sock_child = new_socket;
  entry = record {
    circuit_requester_addr = no_address;
    prev_hop_real_ip = 0;
    given_circuit_id = 0;
    my_circuit_id = 0;
    next_hop_rtr_for_circuit = no_address;
    ptr_to_key_for_cct = none;
  };
  to_forward = false;
  to_forward_fdh = false;
  to_forward_ece = false;
  r_message = record { msg = e.indeterminate; actual_length = 0 };
  trace = [];
}

-- `Router(id)`, with the process's own port and the proxy's.
unfoldable pub router_process : Machine → ℕ → ℕ → ℕ → ℕ → ℕ → Outcome Router
router_process e stage id pid own_port proxy_port = do
  let r = new_router e stage id proxy_port
  let text = report stage id pid own_port r.my_raw_ip
  buffer ← fill e.indeterminate 0 (text ++ 0 ∷ [])
  let message : Message = record { msg = buffer; actual_length = u16 (length text + 1) }
  line ← printed message
  let r1 = log_it r (router_up line)
  let r2 = record r1 { sock_child = set_reciver_by_name r1.sock_child loopback proxy_port }
  r3 ← send_message r2 message
  guard (not (stage == 1)) (exit 0)
  ok r3
