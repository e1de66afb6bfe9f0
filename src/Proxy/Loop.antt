-- ===== src/Proxy/Loop.antt =====
-- The loop of `tunnelPlusSock_reader` of proxy.cc, with `tun_alloc`: descriptor by descriptor
-- through what `select` reports.
pub mod Order
pub mod Course
use torupload.Proxy.Tunnel.{router_readable, tunnel_readable}
use torupload.Proxy.State.{Proxy}
use torupload.Machine.{Machine}
use torupload.Base.Outcome.{Outcome, ◌>>=◌, ok, fault, exit}
use torupload.Socket.{ℤ, Received, negsuc, pos}
use torupload.Base.{
  ltb, ◌==◌, if◌then◌else◌, ◌&&◌, ℕ, zero, suc, ◌+◌, Bool, true, false, Option, none, some, List,
  [], ◌∷◌,
}

-- What is read from the tunnel, and the values of `rand()` that this takes.
pub record TunnelRead : Type 0 where
  pub bytes : Option (List ℕ)
  pub rands : List ℕ

-- The readable descriptors, each with what it has.
pub record Readable : Type 0 where
  pub socket : Option Received
  pub tunnel : Option TunnelRead

-- What `select` returns; the failure is -1.
pub data SelectResult : Type 0 where
  readable : Readable → SelectResult
  select_failed : SelectResult

abbrev is_set {ℓ} : {A : Type ℓ} → Option A → Bool
is_set none = false
is_set (some a) = true

-- A part of the loop, and what follows it. `none` stays: `rand()` has not yet hit a router.
abbrev pub and_on :
    Outcome (Option Proxy) → (Proxy → Outcome (Option Proxy)) → Outcome (Option Proxy)
and_on m later = m >>= λ o. elim o [ none ↦ ok none | some p ↦ later p ]

-- `tun_alloc`, by the results of `open` and `ioctl`: a descriptor, or a negative number.
unfoldable pub tun_alloc : ℤ → ℤ → ℤ
tun_alloc (negsuc n) controlled = negsuc n
tun_alloc (pos fd) (negsuc n) = negsuc n
tun_alloc (pos fd) (pos n) = pos fd

module _ (e : Machine) (sock_fd tun_fd : ℕ) where
  abbrev pub read_socket : Proxy → Option Received → Outcome (Option Proxy)
  read_socket p none = ok (some p)
  read_socket p (some got) = router_readable e p got >>= λ p1. ok (some p1)

  abbrev pub read_tunnel : Proxy → Option TunnelRead → Outcome (Option Proxy)
  read_tunnel p none = ok (some p)
  read_tunnel p (some t) = tunnel_readable e p t.rands t.bytes

  -- The body of the loop over the descriptors.
  unfoldable pub descriptor : Readable → Proxy → ℕ → Outcome (Option Proxy)
  descriptor ready p var =
      if var == sock_fd && is_set ready.socket
      then read_socket p ready.socket
      else if var == tun_fd && is_set ready.tunnel
      then read_tunnel p ready.tunnel
      else ok (some p)

  -- The loop over the descriptors from `var` on, with `rounds` left.
  unfoldable pub descriptors : Readable → Proxy → ℕ → ℕ → Outcome (Option Proxy)
  descriptors ready p var zero = ok (some p)
  descriptors ready p var (suc rounds) =
      and_on (descriptor ready p var) (λ p1. descriptors ready p1 (var + 1) rounds)

  abbrev pub max_fd_plus1 : ℕ
  max_fd_plus1 = if ltb tun_fd sock_fd then sock_fd + 1 else tun_fd + 1

  -- `while(1)`, over what `select` reports.
  unfoldable pub reader : Proxy → List SelectResult → Outcome (Option Proxy)
  reader p [] = ok (some p)
  reader p (readable ready ∷ reports) =
      and_on (descriptors ready p 0 max_fd_plus1) (λ p1. reader p1 reports)
  reader p (select_failed ∷ reports) = fault (exit 4)

-- The whole function, by the results of `open` and `ioctl`.
unfoldable pub tunnel_plus_sock_reader :
    Machine → ℤ → ℤ → ℕ → Proxy → List SelectResult → Outcome (Option Proxy)
unfolding tun_alloc
tunnel_plus_sock_reader e opened controlled sock_fd p reports = elim (tun_alloc opened controlled) [
  | pos tun_fd ↦ reader e sock_fd tun_fd p reports
  | negsuc n ↦ fault (exit 1)
]
