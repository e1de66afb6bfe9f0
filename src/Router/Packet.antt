-- ===== src/Router/Packet.antt =====
-- The functions of router.cc on a bare IP packet: an IP header of 20 bytes (protocol at 9,
-- checksum at 10, source at 12, destination at 16), then the ICMP part (type, code, checksum).
pub mod Reply
use torupload.Base.{◌==◌, ℕ, ◌+◌, Bool, ◌&&◌, ◌∷◌}
use torupload.Base.Outcome.{Outcome, ok, assertion, guard, ◌>>=◌, ◌>>◌}
use torupload.Message.{Message, Buffer, load32, store8, store16, store32, slice}
use torupload.Checksum.{csum}
use torupload.Machine.{Machine}
use torupload.Trace.{raw_sent}
use torupload.Router.State.{Router}

-- `icmp.type = 0` and the checksum of the 64 bytes behind the header.
abbrev pub reply_icmp : Buffer → Buffer
reply_icmp f = let g = store16 (store8 f 20 0) 22 0 in store16 g 22 (csum g 20 32)

-- Source and destination exchanged.
abbrev pub swap_addresses : Buffer → Buffer
swap_addresses f = store32 (store32 f 12 (load32 f 16)) 16 (load32 f 12)

-- `check = 0; check = csum(…)` on the IP header that starts at `o`.
abbrev pub put_header_checksum : Buffer → ℕ → Buffer
put_header_checksum f o = let g = store16 f (o + 10) 0 in store16 g (o + 10) (csum g o 10)

-- `ProcessIPPacket`: an echo request turned into its reply, in place.
unfoldable pub process_ip_packet : Message → Outcome Message
process_ip_packet m = do
  guard (m.actual_length == 84) assertion
  ok (record m { msg = put_header_checksum (swap_addresses (reply_icmp m.msg)) 0 })

-- `isThisICMPEchoRequestForTunnel`: the destination is 10.5.51.x. (The address is printed and
-- scanned in the source, which gives its four bytes.)
unfoldable pub is_this_icmp_echo_request_for_tunnel : Message → Bool
is_this_icmp_echo_request_for_tunnel m = m.msg 16 == 10 && m.msg 17 == 5 && m.msg 18 == 51

-- `SendToWorld`: 64 bytes behind the IP header, to its destination. The kernel writes the header.
unfoldable pub send_to_world : Router → Message → Router
send_to_world r m = record r { trace = raw_sent (load32 m.msg 16) (slice m.msg 20 64) ∷ r.trace }

-- `ChangeDestAddressToEth0`.
unfoldable pub change_dest_address_to_eth0 : Machine → Message → Message
change_dest_address_to_eth0 e m = record m {
  msg = put_header_checksum (store32 m.msg 16 (e.nic 0)) 0;
}
