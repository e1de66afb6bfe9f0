-- ===== src/Config/Main.antt =====
-- `main` of Stage1.cc with the global `sockParent`, up to the processes that it starts.
use torupload.Socket.{UdpSocket, ℤ, SockAddr}
use torupload.Config.{Config, read_config, forked}
use torupload.Base.{ltb, ℕ, Bool, true, false, not, ◌||◌, ◌≡◌, List, arith}
use torupload.Base.Outcome.{ok, Outcome, fault, exit, guard, ◌>>=◌, ◌>>◌}
use torupload.Socket.Open.{
  Found, addresses, unknown_host, create_udp_socket, is_error, bind_socket_for_listening, BindState,
  print_port,
}

-- What the system answers: to `socket`, `getaddrinfo` and `bind`, to `getsockname` (its result, the
-- length and the address written), to `sigaction`; and the number of arguments.
pub record Answers : Type 0 where
  pub socket : ℤ
  pub found : Found
  pub bind : BindState → SockAddr → ℤ
  pub name_result : ℤ
  pub name_length : ℕ
  pub name : SockAddr
  pub sigaction : ℤ
  pub argc : ℕ

-- What `main` has when it starts its processes.
pub record Started : Type 0 where
  pub sock_parent : UdpSocket
  pub state : BindState
  pub port_no_of_proxy : List ℕ
  pub config : Config
  pub routers : List ℕ

-- Nothing looks at whether the socket could be bound.
unfoldable pub main : Answers → List ℕ → Outcome Started
unfolding create_udp_socket bind_socket_for_listening print_port forked
main w file = do
  sock ← create_udp_socket w.socket
  (state, listening) ← bind_socket_for_listening w.bind w.found
  port ← print_port w.name_result w.name_length w.name
  guard (not (ltb w.argc 2)) (exit 1)
  guard (not (is_error w.sigaction)) (exit 1)
  config ← read_config file
  ok (record {
    sock_parent = sock;
    state = state;
    port_no_of_proxy = port;
    config = config;
    routers = forked config.no_of_routers;
  })

abbrev is_unknown : Found → Bool
is_unknown (addresses found) = false
is_unknown unknown_host = true

-- One of the answers is a failure, or the configuration file is not named.
abbrev pub has_failed : Answers → Bool
has_failed w =
    is_error w.socket
    || is_unknown w.found
    || ltb w.name_length 16
    || is_error w.name_result
    || ltb w.argc 2
    || is_error w.sigaction

-- If `socket`, `getaddrinfo`, `getsockname` or `sigaction` fails, or the name that `getsockname`
-- writes is shorter than an address, or no configuration file is named, `main` ends the process
-- with 1, before it reads any file or starts any process.
pub main_failed : (w : Answers) (file : List ℕ) → has_failed w ≡ true → main w file ≡ fault (exit 1)
unfolding main create_udp_socket bind_socket_for_listening print_port
main_failed w file failed = ground arith
