-- ===== src/Socket/Open.antt =====
-- How the sockets of SocketAPI.cc come to be: the constructor of `UDPSocket`, its port, the address
-- that it is bound to, the receiver by name, and the constructor of `RawSockets` with the
-- address of its interface. What the system answers is an argument.
pub mod Binding
use torupload.Message.{htons}
use torupload.Base.Outcome.{Outcome, ok, fault, exit, null_pointer, guard, ◌>>=◌, ◌>>◌}
use torupload.Socket.{new_socket, ℤ, SockAddr, UdpSocket, eq_ℤ, negsuc}
use torupload.Text.{decimal, codes}
use torupload.Base.{
  ltb, if◌then◌else◌, take, ℕ, Bool, true, false, not, ◌||◌, Option, none, some, List, [], ◌∷◌,
  ◌++◌,
}

-- A result of -1.
abbrev pub is_error : ℤ → Bool
is_error n = eq_ℤ n (negsuc 0)

-- `UDPSocket()`, by the result of `socket`.
unfoldable pub create_udp_socket : ℤ → Outcome UdpSocket
unfolding new_socket
create_udp_socket fd = do guard (not (is_error fd)) (exit 1); ok new_socket

-- `PrintPort`, by what `getsockname` returns and writes.
unfoldable pub print_port : ℤ → ℕ → SockAddr → Outcome (List ℕ)
unfolding decimal
print_port rv len address = do
  guard (not (ltb len 16 || is_error rv)) (exit 1)
  ok (decimal (htons address.sin_port) [])

-- What `getaddrinfo` finds: the addresses in their order, or an error.
pub data Found : Type 0 where
  addresses : List SockAddr → Found
  unknown_host : Found

-- The socket itself: `closed` after `close`, `bound` after a `bind` that succeeds.
pub data BindState : Type 0 where
  unbound closed : BindState
  bound : SockAddr → BindState

-- The loop over the addresses; `bind state a` is the result of `bind` on a socket in this state.
-- The result is the state of the socket, and whether the loop ended at an address.
unfoldable pub bind_first :
    (BindState → SockAddr → ℤ) → BindState → List SockAddr → BindState × Bool
bind_first bind state [] = (state, false)
bind_first bind state (a ∷ others) =
    let rest = bind_first bind closed others in
    if is_error (bind state a) then rest else (bound a, true)

-- `BindSocketForListening`: the state of the socket, and what the function returns.
unfoldable pub bind_socket_for_listening :
    (BindState → SockAddr → ℤ) → Found → Outcome (BindState × Bool)
unfolding bind_first
bind_socket_for_listening bind (addresses found) = ok (bind_first bind unbound found)
bind_socket_for_listening bind unknown_host = fault (exit 1)

-- `SetReciverSockAddress(std::string, std::string)`: the first address found.
unfoldable pub set_reciver_found : UdpSocket → Found → Outcome (UdpSocket × Bool)
set_reciver_found s unknown_host = ok (s, false)
set_reciver_found s (addresses []) = fault null_pointer
set_reciver_found s (addresses (a ∷ others)) = ok (record s { send_to_address = a }, true)

-- `NICname`: the name of the interface, at most 23 bytes.
unfoldable pub nic_name : ℕ → List ℕ
unfolding decimal
nic_name router_id = take 23 (codes "eth" ++ decimal router_id [])

-- `getIPforThisNIC` of MyDEBUG.cc: at most 15 bytes of the name are copied, and the result of the
-- `ioctl` is not looked at; where there is no such interface, what was there is returned.
unfoldable pub get_ip_for_this_nic : (List ℕ → Option ℕ) → ℕ → List ℕ → ℕ
get_ip_for_this_nic interfaces garbage name = elim (interfaces (take 15 name)) [
  | none ↦ garbage
  | some ip ↦ ip
]

-- `RawSockets(routerID)`, by the result of `bind` on the interface's address. A failure ends the
-- process with 0.
unfoldable pub raw_socket : (List ℕ → Option ℕ) → ℕ → (ℕ → ℤ) → ℕ → Outcome ℕ
unfolding nic_name get_ip_for_this_nic
raw_socket interfaces garbage bind router_id = do
  let ip = get_ip_for_this_nic interfaces garbage (nic_name router_id)
  guard (not (is_error (bind ip))) (exit 0)
  ok ip
