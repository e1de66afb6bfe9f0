-- ===== src/Proxy/Register.antt =====
-- `EnterTainRouterUpMsges` of proxy.cc: the messages by which the routers report.
pub mod Reports
pub mod Table
use torupload.Text.{printed, scan_hu}
use torupload.Trace.{router_up}
use torupload.Proxy.State.{log_it}
use torupload.Machine.{Machine}
use torupload.Base.{
  ltb, leb, ◌==◌, ℕ, ◌+◌, Bool, ◌&&◌, not, Option, none, some, List, [], ◌∷◌, zero, suc,
}
use torupload.Base.Outcome.{Outcome, ok, assertion, guard, exit, ◌>>=◌, ◌>>◌}
use torupload.Message.{Message, slice}
use torupload.Socket.{Received, receive_message, save_last_sender_info}
use torupload.Proxy.State.{Proxy}

-- "router:", the seven bytes that `strncmp` compares.
abbrev pub router_word : List ℕ
router_word = b'r' ∷ b'o' ∷ b'u' ∷ b't' ∷ b'e' ∷ b'r' ∷ b':' ∷ []

abbrev pub has_router_word : Message → Bool
has_router_word m =
    m.msg 0 == b'r'
    && m.msg 1 == b'o'
    && m.msg 2 == b'u'
    && m.msg 3 == b't'
    && m.msg 4 == b'e'
    && m.msg 5 == b'r'
    && m.msg 6 == b':'

-- `routerID` where nothing is scanned, or else what is.
abbrev pub scanned : ℕ → Option ℕ → ℕ
scanned garbage none = garbage
scanned garbage (some n) = n

-- One round of the loop; `garbage` is what `routerID` holds where nothing is scanned.
unfoldable pub register_router : ℕ → Proxy → Message → Received → Outcome (Proxy × Message)
register_router garbage p m got = do
  (sock, m') ← receive_message p.sock_parent m got
  guard (has_router_word m') assertion
  text ← printed m'
  let router_id = scanned garbage (scan_hu (slice m'.msg 7 493))
  guard (ltb router_id 7 && leb 1 router_id) assertion
  sock' ← save_last_sender_info sock router_id
  ok (log_it (record p { sock_parent = sock' }) (router_up text), m')

-- The loop over `noOfRouters` routers.
unfoldable pub register_all : ℕ → Proxy → Message → List Received → Outcome Proxy
register_all garbage p m [] = ok p
register_all garbage p m (got ∷ later) = do
  (p', m') ← register_router garbage p m got
  register_all garbage p' m' later

-- What arrives in the rounds from `var` on.
abbrev pub rounds : (ℕ → Received) → ℕ → ℕ → List Received
rounds got var zero = []
rounds got var (suc n) = got var ∷ rounds got (var + 1) n

-- `EnterTainRouterUpMsges`, with the end of stage 1.
unfoldable pub enter_tain_router_up_msges : Machine → ℕ → (ℕ → Received) → Proxy → Outcome Proxy
enter_tain_router_up_msges e garbage got p = do
  p' ←
      register_all garbage p (record { msg = e.indeterminate; actual_length = 0 })
        (rounds got 0 p.no_of_routers)
  guard (not (p'.stage == 1)) (exit 0)
  ok p'
