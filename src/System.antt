-- ===== src/System.antt =====
-- The program as a whole, from the processes that `main` of Stage1.cc starts: what each router
-- sends is what the proxy receives, and the circuit is built over these routers.
pub mod Reported
pub mod Registered
pub mod Selected
pub mod Whole
use torupload.Key.{key_of_router}
use torupload.Router.Start.{router_process, new_router}
use torupload.Message.{htons}
use torupload.Circuit.{newest}
use torupload.Trace.{Event, udp_sent, raw_sent, tun_written, logged}
use torupload.Router.State.{Router}
use torupload.Proxy.Start.{Supply}
use torupload.Circuit.Extend.Plan.{Ahead}
use torupload.Socket.{Received, SockAddr, loopback, failed, arrived}
use torupload.Machine.{Machine}
use torupload.Base.Outcome.{ok, fault}
use torupload.Base.{
  ℕ, zero, suc, ◌+◌, ◌%◌, List, [], ◌∷◌, map, ◌==◌, if◌then◌else◌, Option, none, some,
}

-- The host: the process identifiers of the routers' processes, the ports that their datagrams come
-- from, the ports that `PrintPort` gives them for their reports (their sockets have no name yet when
-- it is called, so it is another number, 0 in the recorded logs), the port of the proxy, what a variable holds that was not written to, and the random values: one for the
-- selection of the hops, and a text for each key.
pub record Host : Type 0 where
  pub pid : ℕ → ℕ
  pub port : ℕ → ℕ
  pub reported_port : ℕ → ℕ
  pub proxy_port : ℕ
  pub garbage : ℕ
  pub rand : ℕ
  pub random : ℕ → List ℕ

-- Where a router's datagrams come from, and where the proxy's socket is.
abbrev pub router_address : Host → ℕ → SockAddr
router_address h i = record { sin_addr = loopback; sin_port = htons (h.port i) }

abbrev pub home_address : Host → SockAddr
home_address h = record { sin_addr = loopback; sin_port = htons h.proxy_port }

-- The router process with this number, where it is when its start is over.
unfoldable pub started : Machine → Host → ℕ → ℕ → Router
started e h stage i = elim (router_process e stage i (h.pid i) (h.reported_port i) h.proxy_port) [
  | ok r ↦ r
  | fault why ↦ new_router e stage i h.proxy_port
]

-- What the proxy's socket receives of a process at `from` that has done this last.
abbrev pub heard : SockAddr → SockAddr → Option Event → Received
heard own from (some (udp_sent to bytes)) =
    if to.sin_port == own.sin_port then arrived from bytes else failed
heard own from (some (raw_sent to bytes)) = failed
heard own from (some (tun_written bytes)) = failed
heard own from (some (logged l)) = failed
heard own from none = failed

-- What the routers have sent, in the order in which they come to it.
abbrev pub reports_of : Machine → Host → ℕ → List ℕ → List Received
reports_of e h stage order =
    map (λ i. heard (home_address h) (router_address h i) (newest (started e h stage i).trace))
      order

-- Received one after the other, and nothing after the last.
abbrev pub in_turn : List Received → ℕ → Received
in_turn [] var = failed
in_turn (got ∷ later) zero = got
in_turn (got ∷ later) (suc var) = in_turn later var

-- What the proxy takes in; all its rounds are answered with `answer`.
abbrev pub supply_of : Machine → Host → ℕ → List ℕ → Received → Supply
supply_of e h stage order answer = record {
  garbage = h.garbage;
  reports = in_turn (reports_of e h stage order);
  rand = h.rand;
  random = h.random;
  answers = λ var. answer;
}

-- The hops of a circuit: the routers selected, each with the key that the proxy makes for it.
abbrev pub hops_of : Machine → Host → ℕ → ℕ → List ℕ → List Ahead
hops_of e h stage var [] = []
hops_of e h stage var (r ∷ rs) =
    record {
      address = router_address h r;
      router = started e h stage r;
      key = key_of_router e (h.random var) (r % 256);
    }
    ∷ hops_of e h stage (var + 1) rs
