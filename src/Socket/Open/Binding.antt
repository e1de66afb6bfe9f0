-- ===== src/Socket/Open/Binding.antt =====
-- What comes of the addresses that `BindSocketForListening` tries.
use torupload.Base.Outcome.{ok}
use torupload.Socket.{SockAddr, ℤ, negsuc}
use torupload.Socket.Open.{
  bind_socket_for_listening, bind_first, BindState, unbound, closed, is_error, bound, addresses,
}
use torupload.Base.{Bool, true, false, ◌≡◌, refl, List, [], ◌∷◌, if◌then◌else◌}

-- The first of them, or none.
abbrev pub first_or_none : (BindState → SockAddr → ℤ) → List SockAddr → BindState × Bool
first_or_none bind [] = (unbound, false)
first_or_none bind (a ∷ others) =
    if is_error (bind unbound a) then (closed, false) else (bound a, true)

bind_first-closed :
    (bind : BindState → SockAddr → ℤ) (found : List SockAddr)
    → ((a : SockAddr) → bind closed a ≡ negsuc 0)
    → bind_first bind closed found ≡ (closed, false)
unfolding bind_first
bind_first-closed bind [] fails = refl
bind_first-closed bind (a ∷ others) fails = rw (fails a) (bind_first-closed bind others fails)

-- A `bind` on a closed socket fails. Then of the addresses that are found, `BindSocketForListening`
-- can bind the socket to the first only: if that fails, the socket is closed and every other
-- address fails with it.
pub bind_socket_for_listening-first :
    (bind : BindState → SockAddr → ℤ) (found : List SockAddr)
    → ((a : SockAddr) → bind closed a ≡ negsuc 0)
    → bind_socket_for_listening bind (addresses found) ≡ ok (first_or_none bind found)
unfolding bind_socket_for_listening bind_first
bind_socket_for_listening-first bind [] fails = refl
bind_socket_for_listening-first bind (a ∷ others) fails =
    rw (bind_first-closed bind others fails) refl
