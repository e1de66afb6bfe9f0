-- ===== src/Router/Wrap.antt =====
-- The framing of Mini-Tor messages, in proxy.cc and router.cc: an IP header of 20 bytes that
-- names protocol 253 and 127.0.0.1, a command byte, two bytes of circuit identifier, a payload.
use torupload.Base.{leb, ℕ, ◌+◌, ◌-◌, ◌&&◌, List, [], ◌∷◌, ◌++◌, replicate}
pub mod Bytes
use torupload.Base.Outcome.{Outcome, ok, out_of_bounds, guard, ◌>>=◌, ◌>>◌}
use torupload.Message.{Message, Buffer, place, memcpy, sub16, u16, store8, store16, slice}
use torupload.Machine.{Machine}
use torupload.Router.State.{proto_mini_tor}

-- `memset(&IP_Hdr, 0, …)` with protocol, source and destination set.
abbrev pub tor_header : List ℕ
tor_header = replicate 9 0 ++ (proto_mini_tor ∷ 0 ∷ 0 ∷ 127 ∷ 0 ∷ 0 ∷ 1 ∷ 127 ∷ 0 ∷ 0 ∷ 1 ∷ [])

-- Header, command and circuit identifier (as stored, in host order) at the front of a buffer.
abbrev pub frame : Buffer → ℕ → ℕ → Buffer
frame f command id = store16 (store8 (place f 0 tor_header) 20 command) 21 id

-- `Message p; memcpy(p.msg, message.msg + 23, p.actualLength = message.actualLength - 23)`.
unfoldable pub payload : Machine → Message → Outcome Message
unfolding memcpy
payload e m = do
  buffer ← memcpy e.indeterminate 0 m.msg 23 (sub16 m.actual_length 23)
  ok (record { msg = buffer; actual_length = sub16 m.actual_length 23 })

-- `memcpy(message.msg + 23, p.msg, p.actualLength); message.actualLength = 23 + p.actualLength`.
unfoldable pub put_payload : Message → Message → Outcome Message
unfolding memcpy
put_payload m p = do
  buffer ← memcpy m.msg 23 p.msg 0 p.actual_length
  ok (record { msg = buffer; actual_length = u16 (23 + p.actual_length) })

-- `HexDump(message.msg + 20, message.actualLength - 20)`: the bytes that it prints, one at least.
-- The length is unsigned, so a message of fewer than 20 bytes reads on past the array.
unfoldable pub hex_dump : Message → Outcome (List ℕ)
hex_dump m = do
  guard (leb 20 m.actual_length && leb m.actual_length 500) out_of_bounds
  ok (m.msg 20 ∷ slice m.msg 21 (m.actual_length - 21))
